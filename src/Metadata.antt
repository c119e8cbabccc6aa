-- ===== src/Metadata.antt =====
-- pkg/metadata: the metadata of the images, kept in the annotations of persistent volumes.
pub mod ParseInt
pub mod Server
pub mod RoundTrip
pub mod Store
pub mod Listing
pub mod Written
pub mod Client
