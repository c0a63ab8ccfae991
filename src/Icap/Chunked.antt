-- ===== src/Icap/Chunked.antt =====
-- pkg/icap/encoding.go: chunked transfer encoding, with the preview boundary of ICAP.
pub mod Source
pub mod Header
pub mod Reader
pub mod Writer
pub mod Encoded
pub mod Reading
pub mod Whole
pub mod Bodies
pub mod RoundTrip
pub mod Preview
pub mod Once
pub mod Oversize
