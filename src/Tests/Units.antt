-- ===== src/Tests/Units.antt =====
-- The repository's own unit tests, of the `tests` modules of its files, run on the model. Each is the
-- conjunction of the test's assertions, under its name, with the clock at one time.
pub mod Selecting
pub mod Serving
