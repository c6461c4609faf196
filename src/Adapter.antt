-- ===== src/Adapter.antt =====
-- internal/twilioadapter, and the handler of cmd/request-sudo-twilio-adapter: text messages that ask for
-- a review, and the replies.
pub mod Phones
pub mod Pending
pub mod Replies
pub mod Signature
pub mod Verify
pub mod Audit
pub mod Webhook
pub mod Send
pub mod Canon
pub mod Codes
pub mod Config
pub mod Approvers
