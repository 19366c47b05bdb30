-- ===== src/Helper.antt =====
-- What the controllers share (controllers/helper).
pub mod Client
pub mod Status
pub mod Owner
