-- ===== src/Photo.antt =====
-- The photo service (app/services/photo.py): the check of an image, the upload with its outbox
-- job for a deletion, and the review of photos.
pub mod Image
pub mod Upload
pub mod Review
pub mod Order
pub mod Paging
pub mod Bounds
pub mod Keys
pub mod Stripped
