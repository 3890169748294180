-- ===== src/Path/Mime.antt =====
-- include/nodepp/path.h: the table of the types of files.
use nodepp.Prelude.{Option, none, some, List, [], ◌∷◌, if◌then◌else◌}
use nodepp.Prelude.Ascii.{text}
use Prim.Native.String.{String}
use nodepp.Text.{Text, same}

abbrev row : String → String → Text × Text
row ext type = (text ext, text type)

unfoldable pub table : List (Text × Text)
table =
    row "txt" "text/plain"
    ∷ row "text" "text/plain"
    ∷ row "otf" "font/otf"
    ∷ row "ttf" "font/ttf"
    ∷ row "woff" "font/woff"
    ∷ row "woff2" "font/woff2"
    ∷ row "oga" "audio/ogg"
    ∷ row "aac" "audio/aac"
    ∷ row "wav" "audio/wav"
    ∷ row "mp3" "audio/mpeg"
    ∷ row "opus" "audio/opus"
    ∷ row "weba" "audio/webm"
    ∷ row "ogv" "video/ogg"
    ∷ row "mp4" "video/mp4"
    ∷ row "ts" "video/mp2t"
    ∷ row "webm" "video/webm"
    ∷ row "mpeg" "video/mpeg"
    ∷ row "avi" "video/x-msvideo"
    ∷ row "c" "text/X-C"
    ∷ row "css" "text/css"
    ∷ row "csv" "text/csv"
    ∷ row "html" "text/html"
    ∷ row "scss" "text/scss"
    ∷ row "cpp" "text/X-CPP"
    ∷ row "ics" "text/calendar"
    ∷ row "js" "text/javascript"
    ∷ row "xml" "application/xhtml+xml"
    ∷ row "bmp" "image/bmp"
    ∷ row "gif" "image/gif"
    ∷ row "png" "image/png"
    ∷ row "jpg" "image/jpeg"
    ∷ row "jpeg" "image/jpeg"
    ∷ row "webp" "image/webp"
    ∷ row "svg" "image/svg+xml"
    ∷ row "ico" "image/vnd.microsoft.icon"
    ∷ row "url" "application/x-www-form-urlencoded"
    ∷ row "zip" "application/zip"
    ∷ row "gz" "application/gzip"
    ∷ row ".h" "application/x-.h"
    ∷ row "json" "application/json"
    ∷ row "wasm" "application/wasm"
    ∷ row "tar" "application/x-tar"
    ∷ row "rar" "application/vnd.rar"
    ∷ row "7z" "application/x-7z-compressed"
    ∷ row "m3u8" "application/vnd.apple.mpegurl"
    ∷ row "exe" "application/vnd.microsoft.portable-executable"
    ∷ row "pdf" "application/pdf"
    ∷ row "doc" "application/msword"
    ∷ row "vsd" "application/vnd.visio"
    ∷ row "xls" "application/vnd.ms-excel"
    ∷ row "ppt" "application/vnd.ms-powerpoint"
    ∷ row "swf" "application/x-shockwave-fla.h"
    ∷ row "ods" "application/vnd.oasis.opendocument.spreadsheet"
    ∷ row "odp" "application/vnd.oasis.opendocument.presentation"
    ∷ row "odt" "application/vnd.oasis.opendocument.presentation"
    ∷ row "xlsx" "application/vnd.openxmlformats-officedocument.spreadsheetml.sheet"
    ∷ row "docx" "application/vnd.openxmlformats-officedocument.wordprocessingml.document"
    ∷ row "pptx" "application/vnd.openxmlformats-officedocument.presentationml.presentation"
    ∷ []

unfoldable pub find_type : Text → List (Text × Text) → Option Text
unfolding same
find_type ext [] = none
find_type ext ((key, type) ∷ rows) = if same key ext then some type else find_type ext rows

-- `has( ext )` and then `[ ext ]`
unfoldable pub mime_of : Text → Option Text
unfolding find_type table
mime_of ext = find_type ext table
