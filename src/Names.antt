-- ===== src/Names.antt =====
-- internal/controller/monitorpod_controller.go: `sanitizeForKubernetes`.
-- A text is the list of its code points. `unicode_lower` is `unicode.ToLower` outside ASCII.
pub mod Sanitized
pub mod Long
use smart_log.Base.{
  ℕ, suc, ◌+◌, Bool, true, false, not, ◌&&◌, ◌||◌, List, [], ◌∷◌, ltb, leb, length, take,
}
use smart_log.Base.{if◌then◌else◌, map}

abbrev pub dash : ℕ
dash = b'-'

-- `c == '-'`
abbrev pub is_dash : ℕ → Bool
is_dash c = leb c dash && leb dash c

-- The class `[a-z0-9-]`.
unfoldable pub is_allowed : ℕ → Bool
is_allowed c = leb b'a' c && leb c b'z' || leb b'0' c && leb c b'9' || is_dash c

module _ (unicode_lower : ℕ → ℕ) where
  -- One character of `strings.ToLower`.
  unfoldable pub to_lower : ℕ → ℕ
  to_lower c =
      if ltb c 128 then (if leb b'A' c && leb c b'Z' then c + 32 else c) else unicode_lower c

-- `reg.ReplaceAllString(s, "-")` for the class `[^a-z0-9-]+`; the flag is set inside a match.
unfoldable pub replace_runs : Bool → List ℕ → List ℕ
replace_runs inside [] = []
replace_runs inside (c ∷ cs) =
    let rest = replace_runs (not (is_allowed c)) cs in
    if is_allowed c then c ∷ rest else if inside then rest else dash ∷ rest

unfoldable pub trim_left : List ℕ → List ℕ
trim_left [] = []
trim_left (c ∷ cs) = let rest = trim_left cs in if is_dash c then rest else c ∷ cs

abbrev is_nil : List ℕ → Bool
is_nil [] = true
is_nil (_ ∷ _) = false

unfoldable pub trim_right : List ℕ → List ℕ
trim_right [] = []
trim_right (c ∷ cs) = let rest = trim_right cs in if is_nil rest && is_dash c then [] else c ∷ rest

-- The limit of a Kubernetes label.
abbrev pub max_length : ℕ
max_length = 63

unfoldable pub truncate : List ℕ → List ℕ
truncate s = if ltb max_length (length s) then take max_length s else s

unfoldable pub sanitize_for_kubernetes : (ℕ → ℕ) → List ℕ → List ℕ
unfolding to_lower is_allowed replace_runs trim_left trim_right truncate
sanitize_for_kubernetes unicode_lower name =
    truncate (trim_right (trim_left (replace_runs false (map (to_lower unicode_lower) name))))
