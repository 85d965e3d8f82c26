-- ===== src/Portal.antt =====
-- What leaves the API for the public: apps/api/app/routers/public.py with the views that it uses.
pub mod Features
pub mod Pages
pub mod Live
pub mod Alike
pub mod Blind
pub mod Examples
