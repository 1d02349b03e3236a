-- ===== src/S3.antt =====
-- internal/s3: the requests of the S3 API.
pub mod Authorization
