-- ===== src/Snapshot/ContentType.antt =====
-- src/kernel/previewSnapshot.ts: the content type of a file, by the end of its name.
use modular_agentic_system.Base.{[], ◌∷◌, Text, codes, lower_unit, map, or_else}
use modular_agentic_system.Base.Map
use modular_agentic_system.Base.Map.{Map}
use modular_agentic_system.Posix.{extname}

abbrev pub javascript : Text
javascript = codes "text/javascript; charset=utf-8"

pub content_types : Map Text
content_types =
    (codes ".html", codes "text/html; charset=utf-8")
    ∷ (codes ".htm", codes "text/html; charset=utf-8")
    ∷ (codes ".js", javascript)
    ∷ (codes ".mjs", javascript)
    ∷ (codes ".cjs", javascript)
    ∷ (codes ".css", codes "text/css; charset=utf-8")
    ∷ (codes ".json", codes "application/json; charset=utf-8")
    ∷ (codes ".map", codes "application/json; charset=utf-8")
    ∷ (codes ".txt", codes "text/plain; charset=utf-8")
    ∷ (codes ".svg", codes "image/svg+xml")
    ∷ (codes ".png", codes "image/png")
    ∷ (codes ".jpg", codes "image/jpeg")
    ∷ (codes ".jpeg", codes "image/jpeg")
    ∷ (codes ".gif", codes "image/gif")
    ∷ (codes ".webp", codes "image/webp")
    ∷ (codes ".avif", codes "image/avif")
    ∷ (codes ".ico", codes "image/x-icon")
    ∷ (codes ".woff", codes "font/woff")
    ∷ (codes ".woff2", codes "font/woff2")
    ∷ (codes ".ttf", codes "font/ttf")
    ∷ (codes ".otf", codes "font/otf")
    ∷ (codes ".wasm", codes "application/wasm")
    ∷ []

-- No key of the table has a letter that a letter beyond ASCII lowers to.
unfoldable pub content_type_for : Text → Text
unfolding content_types Map.get extname
content_type_for path =
    or_else (Map.get (map lower_unit (extname path)) content_types)
      (codes "application/octet-stream")
