-- ===== src/Fat.antt =====
-- src/fs/fat/fat16.c: the FAT16 filesystem. Disk has the state and the reads, Clusters the chains of
-- clusters, Directory the directories and names, Open the functions that a filesystem offers.
pub mod Disk
pub mod Clusters
pub mod Directory
pub mod Open
mod Tests
mod Hidden
