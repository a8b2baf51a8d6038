-- ===== src/Api.antt =====
-- The HTTP endpoints of app/api/v1: each is its role check and its handler, in the session of the
-- request. FastAPI's parsing and validation of the request come before.
pub mod Persons
pub mod Directory
pub mod Outcomes
pub mod Admin
pub mod Faces
pub mod Uploads
pub mod Imports
pub mod Gallery
pub mod Pages
pub mod Analytics
mod Tests
