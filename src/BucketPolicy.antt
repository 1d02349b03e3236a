-- ===== src/BucketPolicy.antt =====
-- internal/policies/aws_bucket_policy.go: AWS-style bucket policies.
mod Tests
pub mod Json
pub mod Documents
pub mod Jsonb
pub mod Evaluate
pub mod Ordered
pub mod Store
pub mod Verdict
pub mod NormalForm
pub mod StoredVerdict
