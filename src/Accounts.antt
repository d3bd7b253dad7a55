-- ===== src/Accounts.antt =====
-- The user accounts of fabric/application: models/User.js (Account and Model), the handlers of
-- controllers/authController.js (Profile, Login, Recovery) and middleware/auth.js (Access).
pub mod Types
pub mod Action
pub mod Model
pub mod Store
pub mod Private
pub mod Response
pub mod Access
pub mod Lockout
pub mod Login
pub mod Recovery
pub mod Reset
pub mod Forgot
pub mod Credentials
pub mod Profile
pub mod Routes
pub mod Memory
mod Tests
