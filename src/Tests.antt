-- ===== src/Tests.antt =====
-- Runs of the model at inputs that can be followed in the source, and the theorems at such inputs.
mod Platform
mod Flash
mod RunTests
mod NetworkTests
mod EventsTests
mod TaskTests
mod HttpTests
mod WifiTests
mod PagesTests
mod SystemTests
mod BootTests
