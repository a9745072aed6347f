-- ===== src/Stream/Files/Whole.antt =====
-- UploadBlobFromPath of simple/stream.go followed by DownloadBlobToFile, for a large file.
use gbf_core.Base.Bytes.{Bytes}
use gbf_core.Crypto.Aead.{Aead}
use gbf_core.Store.{Store}
use gbf_core.Disk.{Files}
