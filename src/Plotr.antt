-- ===== src/Plotr.antt =====
-- htdocs/plotr: the charts of the statistics page.
pub mod Number
pub mod Prototype
pub mod Color
pub mod Hsb
pub mod Settings
pub mod Scheme
pub mod Chart
pub mod Canvas
pub mod Table
pub mod Ticks
pub mod Line
pub mod Bar
pub mod Pie
pub mod Vml
pub mod Tests
