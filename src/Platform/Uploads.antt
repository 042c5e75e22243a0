-- ===== src/Platform/Uploads.antt =====
-- src/common/uploads/storage.paths.ts, and the file types that payment proofs are stored with.
use uza_mobility_bn.Base.{String, ◌||◌, if◌then◌else◌}
use uza_mobility_bn.Base.Text.{◌<>◌}
use uza_mobility_bn.Js.{Js}
use text.Mathlib.Text.{starts_with}

module _ ⦃N : Js⦄ where
  open N use {trim, slice_from, ends_with, to_lower}

  unfoldable pub to_absolute_upload_url : String → String → String
  to_absolute_upload_url url base =
      let trimmed = trim url in
      if starts_with trimmed "http://" || starts_with trimmed "https://"
      then trimmed
      else if starts_with trimmed "/uploads/"
      then base <> slice_from 8 trimmed
      else trimmed

  -- The tests of `inferFileType`, on a text that is in lower case.
  unfoldable pub file_type_of : String → String
  file_type_of lower =
      if ends_with lower ".pdf"
      then "PDF"
      else if ends_with lower ".png"
      then "PNG"
      else if ends_with lower ".webp"
      then "WEBP"
      else "JPG"
