-- ===== src/Auth.antt =====
-- services/auth and the handlers of app/controller that use it: passwords, sign-up, sign-in, refresh
-- tokens and the reset of a password.
pub mod Password
pub mod Service
pub mod Tokens
pub mod Handlers
pub mod Resetting
pub mod Tests
pub mod Issuing
