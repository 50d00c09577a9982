-- ===== src/Primos.antt =====
-- primos/app.js: the prime test and the list of primes.
pub mod Prime
pub mod Listing
pub mod Server
pub mod LoadTest
mod Tests
mod Search
pub use Search.*
