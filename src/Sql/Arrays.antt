-- ===== src/Sql/Arrays.antt =====
-- encodeTextArray and decodeTextArray of driver/sqldriver/driver.go: lists of texts as PostgreSQL
-- arrays. A text is the list of its code points.
pub mod RoundTrip
use tasker.Base.{
  ℕ, Bool, true, false, not, ◌&&◌, ◌||◌, Option, none, some, List, [], ◌∷◌, ◌++◌, ◌==◌,
  if◌then◌else◌,
}

abbrev pub Text : Type 0
Text = List ℕ

abbrev pub quote_code : ℕ
quote_code = b'"'

abbrev pub back_code : ℕ
back_code = b'\\'

-- strings.ReplaceAll of one code point.
unfoldable pub replace_all : ℕ → Text → Text → Text
replace_all c by [] = []
replace_all c by (x ∷ xs) = if x == c then by ++ replace_all c by xs else x ∷ replace_all c by xs

unfoldable pub escape_item : Text → Text
unfolding replace_all
escape_item item =
    replace_all quote_code (back_code ∷ quote_code ∷ [])
      (replace_all back_code (back_code ∷ back_code ∷ []) item)

unfoldable pub quoted_item : Text → Text
unfolding escape_item
quoted_item item = quote_code ∷ escape_item item ++ quote_code ∷ []

-- strings.Join of the quoted items with commas.
unfoldable pub joined : Text → List Text → Text
unfolding quoted_item
joined item [] = quoted_item item
joined item (next ∷ items) = quoted_item item ++ (b',' ∷ joined next items)

unfoldable pub encode_text_array : List Text → Text
unfolding joined
encode_text_array [] = b'{' ∷ b'}' ∷ []
encode_text_array (item ∷ items) = b'{' ∷ joined item items ++ b'}' ∷ []

-- strings.Trim(s, "{}").
abbrev pub is_brace : ℕ → Bool
is_brace c = c == b'{' || c == b'}'

unfoldable pub trim_left : Text → Text
trim_left [] = []
trim_left (c ∷ cs) = if is_brace c then trim_left cs else c ∷ cs

abbrev pub keep_right : ℕ → Text → Text
keep_right c [] = if is_brace c then [] else c ∷ []
keep_right c (x ∷ xs) = c ∷ x ∷ xs

unfoldable pub trim_right : Text → Text
trim_right [] = []
trim_right (c ∷ cs) = keep_right c (trim_right cs)

-- The variables of the loop.
pub record Scan : Type 0 where
  pub result : List Text
  pub item : Text
  pub quoted : Bool
  pub was_quoted : Bool
  pub escaped : Bool

abbrev pub scan_start : Scan
scan_start = record { result = []; item = []; quoted = false; was_quoted = false; escaped = false }

abbrev pub starts_bracket : Text → Bool
starts_bracket [] = false
starts_bracket (c ∷ cs) = c == b'['

-- `parse_json` is json.Unmarshal into a list of texts.
abbrev pub or_json : Option (List Text) → List Text → List Text
or_json (some items) rest = items
or_json none rest = rest

-- `trim_space` is strings.TrimSpace.
module _ (trim_space : Text → Text) where
  unfoldable pub append_item : Scan → Scan
  append_item v = record v {
    result = v.result ++ (if v.was_quoted then v.item else trim_space v.item) ∷ [];
    item = [];
    was_quoted = false;
  }

  -- One round.
  unfoldable pub scan_code : ℕ → Scan → Scan
  unfolding append_item
  scan_code c v =
      if v.escaped
      then record v { item = v.item ++ c ∷ []; escaped = false }
      else (if c == back_code && v.quoted
          then record v { escaped = true }
          else (if c == quote_code
              then record v { quoted = not v.quoted; was_quoted = true }
              else (if c == b',' && not v.quoted
                  then append_item v
                  else record v { item = v.item ++ c ∷ [] })))

  unfoldable pub scan_codes : Text → Scan → Scan
  unfolding scan_code
  scan_codes [] v = v
  scan_codes (c ∷ cs) v = scan_codes cs (scan_code c v)

  unfoldable pub scan_array : Text → List Text
  unfolding scan_codes
  scan_array [] = []
  scan_array (c ∷ cs) = (append_item (scan_codes (c ∷ cs) scan_start)).result

  unfoldable pub decode_text_array : (Text → Option (List Text)) → Text → List Text
  unfolding scan_array trim_left trim_right
  decode_text_array parse_json s =
      let scanned = scan_array (trim_right (trim_left s)) in
      if starts_bracket (trim_space s) then or_json (parse_json s) scanned else scanned
