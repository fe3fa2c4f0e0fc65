-- ===== src/Tests.antt =====
-- Runs of the models on small inputs, and the theorems at inputs that meet their hypotheses.
mod Disk
mod Strings
mod Users
mod Privileges
mod Shell
mod Tools
mod Archive
mod Digests
mod Editor
mod Compression
mod Differences
mod Download
mod Filters
mod Paths
mod Packages
mod Formats
