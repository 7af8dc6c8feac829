-- ===== src/Headers/SecFetch.antt =====
-- internal/signal/headers/secfetch.go and quirks.go. `none` is the answer false, `some reason` the
-- answer true.
use anti_scrapling.Go.{
  Bool, false, not, ◌&&◌, ◌||◌, if◌then◌else◌, Option, none, some, List, [], ◌∷◌, ◌++◌, Bytes,
  codes, text_eq, Assoc,
}
use anti_scrapling.Http.{header_get}

abbrev pub valid_sites : List Bytes
valid_sites = codes "cross-site" ∷ codes "same-origin" ∷ codes "same-site" ∷ codes "none" ∷ []

abbrev pub valid_modes : List Bytes
valid_modes =
    codes "cors" ∷ codes "navigate" ∷ codes "no-cors" ∷ codes "same-origin" ∷ codes "websocket" ∷ []

abbrev pub valid_dests : List Bytes
valid_dests =
    codes "audio"
    ∷ codes "audioworklet"
    ∷ codes "document"
    ∷ codes "embed"
    ∷ codes "empty"
    ∷ codes "font"
    ∷ codes "frame"
    ∷ codes "iframe"
    ∷ codes "image"
    ∷ codes "manifest"
    ∷ codes "object"
    ∷ codes "paintworklet"
    ∷ codes "report"
    ∷ codes "script"
    ∷ codes "serviceworker"
    ∷ codes "sharedworker"
    ∷ codes "style"
    ∷ codes "track"
    ∷ codes "video"
    ∷ codes "worker"
    ∷ codes "xslt"
    ∷ []

-- `valid[value]`
unfoldable pub is_listed : Bytes → List Bytes → Bool
unfolding text_eq
is_listed value [] = false
is_listed value (v ∷ valid) = text_eq v value || is_listed value valid

unfoldable pub validate_sec_fetch : Assoc (List Bytes) → Option Bytes
unfolding header_get text_eq is_listed
validate_sec_fetch h =
    let site = header_get (codes "Sec-Fetch-Site") h in
    let mode = header_get (codes "Sec-Fetch-Mode") h in
    let dest = header_get (codes "Sec-Fetch-Dest") h in
    let user = header_get (codes "Sec-Fetch-User") h in
    if text_eq site [] && (text_eq mode [] && (text_eq dest [] && text_eq user []))
    then none
    else if not (text_eq site []) && not (is_listed site valid_sites)
    then some
        (codes "Sec-Fetch-Site value '" ++ (site ++ codes "' is not a valid W3C Fetch spec value"))
    else if not (text_eq mode []) && not (is_listed mode valid_modes)
    then some
        (codes "Sec-Fetch-Mode value '" ++ (mode ++ codes "' is not a valid W3C Fetch spec value"))
    else if not (text_eq dest []) && not (is_listed dest valid_dests)
    then some
        (codes "Sec-Fetch-Dest value '" ++ (dest ++ codes "' is not a valid W3C Fetch spec value"))
    else if not (text_eq user []) && not (text_eq user (codes "?1"))
    then some
        (codes "Sec-Fetch-User value '" ++ (user ++ codes "' is not valid (only '?1' is allowed)"))
    else if text_eq site (codes "none") && not (text_eq (header_get (codes "Referer") h) [])
    then some (
        codes "Sec-Fetch-Site is 'none' but Referer header is present (cross-header inconsistency)")
    else none

unfoldable pub detect_browser_forge_quirk : Assoc (List Bytes) → Option Bytes
unfolding header_get text_eq
detect_browser_forge_quirk h =
    let site = header_get (codes "Sec-Fetch-Site") h in
    if text_eq site (codes "?0") || text_eq site (codes "?1")
    then some (
        codes "browserforge quirk: Sec-Fetch-Site has boolean-style value '"
        ++ (site ++ codes "' (spec requires: none|same-origin|same-site|cross-site)"))
    else none
