-- ===== src/Frontend/View.antt =====
-- frontend/src/components, frontend/src/pages and the page of frontend/src/App.jsx, as elements.
pub mod Strips
pub mod Charts
pub mod Map
pub mod Tables
pub mod Page
pub mod Offers
pub mod Cells
