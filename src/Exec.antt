-- ===== src/Exec.antt =====
-- A database session (app/core/database.py) and the calls to R2 around it. A function of the
-- program is an action: it takes the world and gives it back beside its result, also when it
-- raises, since what was written before a raise stays written until a rollback.
pub mod Keeps
pub mod Leads
pub mod Atomic
pub mod Outcome
use crane_tracker.Base.{
  ℕ, suc, ◌+◌, String, Bool, true, false, Option, none, some, List, [], ◌∷◌, ◌++◌,
}
use crane_tracker.Models.{Db}
use crane_tracker.Errors.{Result, ok, err, Error, SqlError, sql_alchemy, operational}

-- What R2 answers to a request: success, a BotoCoreError or ClientError, or another exception.
pub data Reply : Type 0 where
  done refused : Reply
  broken : String → Reply

-- A request to the bucket, by the key of the object, to store it with its content type and its bytes
-- or to remove it; it counts as made whatever the reply.
pub data Request : Type 0 where
  put : String → String → List ℕ → Request
  remove : String → Request

pub record World : Type 0 where
  -- what other sessions see
  pub committed : Db
  -- the same with the changes of the open transaction
  pub working : Db
  -- the number of transactions that this session has ended, and the time at which each starts
  pub transaction : ℕ
  pub clock : ℕ → ℕ
  -- whether each of the next statements and commits fails; a statement past the end succeeds
  pub faults : List Bool
  -- how many UUIDs and random tokens were drawn
  pub drawn : ℕ
  -- the ids of the rows that other transactions have locked
  pub locked : ℕ → Bool
  -- the answers of R2 to the next requests, success past the end, and the requests made
  pub replies : List Reply
  pub requests : List Request

abbrev pub Action : Type 0 → Type 0
Action A = World → Result A × World

abbrev pub now : World → ℕ
now w = w.clock w.transaction

abbrev pub fails : List Bool → Bool
fails [] = false
fails (f ∷ _) = f

abbrev pub later {ℓ} : {A : Type ℓ} → List A → List A
later [] = []
later (_ ∷ fs) = fs

module _ {A : Type 0} where
  unfoldable pub pure : A → Action A
  pure a w = (ok a, w)

  unfoldable pub raise : Error → Action A
  raise e w = (err e, w)

  unfoldable pub lift : Result A → Action A
  lift r w = (r, w)

  unfoldable pub gets : (World → A) → Action A
  gets f w = (ok (f w), w)

  -- the outcome of a round trip to the server that may be lost
  abbrev pub delivered : Bool → Result A → Result A
  delivered true _ = err (sql_alchemy operational)
  delivered false r = r

  -- `session.execute`, `session.scalar`, `session.scalars` of a SELECT
  unfoldable pub query : (Db → A) → Action A
  query f w = (delivered (fails w.faults) (ok (f w.working)), record w { faults = later w.faults })

  unfoldable pub or_raise : Option A → Error → Action A
  unfolding pure raise
  or_raise none e = raise e
  or_raise (some a) _ = pure a

  abbrev pub caught : Result A × World → (Error → Action A) → Result A × World
  caught (ok a, w) h = (ok a, w)
  caught (err e, w) h = h e w

  -- `try: m; except …: h`, where `h` raises again what it does not catch
  unfoldable pub rescue : Action A → (Error → Action A) → Action A
  rescue m h w = caught (m w) h

-- `try: m; except Exception as e: … else: …`, with the outcome as a value
unfoldable pub attempt : {A : Type 0} → Action A → Action (Result A)
attempt m w = let (r, w') = m w in (ok r, w')

abbrev pub continue : {A B : Type 0} → Result A × World → (A → Action B) → Result B × World
continue (ok a, w) f = f a w
continue (err e, w) f = (err e, w)

infixl 5 ◌>>=◌ ◌>>◌
unfoldable pub ◌>>=◌ : {A B : Type 0} → Action A → (A → Action B) → Action B
unfolding pure raise lift gets or_raise
◌>>=◌ m f w = continue (m w) f

abbrev pub ◌>>◌ : {A B : Type 0} → Action A → Action B → Action B
m >> n = m >>= λ _. n

-- an assignment to the attributes of a loaded object, sent with the next flush or commit
unfoldable pub modify : (Db → Db) → Action (Unit {0})
modify f w = (ok tt, record w { working = f w.working })

abbrev pub written : Result Db → World → Result (Unit {0}) × World
written (ok d) w = (ok tt, record w { working = d })
written (err e) w = (err e, w)

-- an INSERT, UPDATE or DELETE that reaches the server, by `flush` or by `execute`; a constraint
-- that refuses it leaves the tables as they were
unfoldable pub execute : (Db → Result Db) → Action (Unit {0})
execute f w =
    written (delivered (fails w.faults) (f w.working)) (record w { faults = later w.faults })

abbrev pub ended : Bool → World → Result (Unit {0}) × World
ended true w = (err (sql_alchemy operational), w)
ended false w = (ok tt, record w { committed = w.working; transaction = suc w.transaction })

-- `session.commit()`: all of the transaction, or, if it fails, nothing
unfoldable pub commit : Action (Unit {0})
commit w = ended (fails w.faults) (record w { faults = later w.faults })

-- `session.rollback()`, and the end of a session
unfoldable pub rollback : Action (Unit {0})
rollback w = (ok tt, record w { working = w.committed; transaction = suc w.transaction })

-- `generate_uuid7()` and the tokens, by their place in the sequence of draws
unfoldable pub draw : {A : Type 0} → (ℕ → A) → Action A
draw source w = (ok (source w.drawn), record w { drawn = suc w.drawn })

abbrev pub next_reply : List Reply → Reply
next_reply [] = done
next_reply (r ∷ _) = r

unfoldable pub ask : Request → Action Reply
ask request w = (
  ok (next_reply w.replies),
  record w { replies = later w.replies; requests = w.requests ++ request ∷ [] },
)

-- `with SessionLocal() as session`: a handler runs on a fresh session, which is closed after it
unfoldable pub request : {A : Type 0} → Action A → Action A
request m w = let (r, w') = m w in (r, (rollback w').1)
