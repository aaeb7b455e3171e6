-- ===== src/Backup.antt =====
-- internal/backup: the format of the encrypted backups.
pub mod Cipher
pub mod Format
