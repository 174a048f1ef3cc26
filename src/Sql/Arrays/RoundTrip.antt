-- ===== src/Sql/Arrays/RoundTrip.antt =====
-- What encodeTextArray writes, decodeTextArray reads.
use tasker.Base.{
  ℕ, true, false, Option, List, [], ◌∷◌, ◌++◌, ◌==◌, if◌then◌else◌, ◌≡◌, refl, sym, ◌∙◌, ap, subst,
  arith, append_assoc, append-nil,
}
use tasker.Sql.Arrays.{
  Text, quote_code, back_code, escape_item, quoted_item, joined, encode_text_array, trim_left,
  keep_right, trim_right, Scan, append_item, scan_code, scan_codes, scan_start, scan_array,
  starts_bracket, decode_text_array,
}

-- Both replacements at one code point.
abbrev escaped_code : ℕ → Text
escaped_code c =
    if c == back_code
    then back_code ∷ back_code ∷ []
    else (if c == quote_code then back_code ∷ quote_code ∷ [] else c ∷ [])

escape_item-cons : (c : ℕ) (cs : Text) → escape_item (c ∷ cs) ≡ escaped_code c ++ escape_item cs
unfolding escape_item
escape_item-cons c cs = ground arith

module _ (trim_space : Text → Text) where
  abbrev in_quotes : List Text → Text → Scan
  in_quotes done item = record {
    result = done;
    item = item;
    quoted = true;
    was_quoted = true;
    escaped = false;
  }

  scan_codes-append :
      (xs ys : Text) (v : Scan)
      → scan_codes trim_space (xs ++ ys) v ≡ scan_codes trim_space ys (scan_codes trim_space xs v)
  unfolding scan_codes
  scan_codes-append [] ys v = refl
  scan_codes-append (x ∷ xs) ys v = scan_codes-append xs ys (scan_code trim_space x v)

  scan-escaped_code :
      (c : ℕ) (done : List Text) (item : Text)
      → scan_codes trim_space (escaped_code c) (in_quotes done item)
        ≡ in_quotes done (item ++ c ∷ [])
  unfolding scan_codes
  scan-escaped_code c done item = ground arith

  scan-escape_item :
      (cs : Text) (done : List Text) (item : Text)
      → scan_codes trim_space (escape_item cs) (in_quotes done item) ≡ in_quotes done (item ++ cs)
  unfolding escape_item scan_codes
  scan-escape_item [] done item = ap (in_quotes done) (sym (append-nil item))
  scan-escape_item (c ∷ cs) done item =
      ap (λ (t : Text). scan_codes trim_space t (in_quotes done item)) (escape_item-cons c cs)
      ∙ (scan_codes-append (escaped_code c) (escape_item cs) (in_quotes done item)
          ∙ (ap (scan_codes trim_space (escape_item cs)) (scan-escaped_code c done item)
              ∙ (scan-escape_item cs done (item ++ c ∷ [])
                  ∙ ap (in_quotes done) (append_assoc item (c ∷ []) cs))))

  -- Before an item, and after it.
  abbrev between : List Text → Scan
  between done = record {
    result = done;
    item = [];
    quoted = false;
    was_quoted = false;
    escaped = false;
  }

  abbrev after_item : List Text → Text → Scan
  after_item done item = record {
    result = done;
    item = item;
    quoted = false;
    was_quoted = true;
    escaped = false;
  }

  scan-quoted_item :
      (item : Text) (done : List Text)
      → scan_codes trim_space (quoted_item item) (between done) ≡ after_item done item
  unfolding quoted_item scan_codes
  scan-quoted_item item done =
      scan_codes-append (escape_item item) (quote_code ∷ []) (in_quotes done [])
      ∙ ap (scan_codes trim_space (quote_code ∷ [])) (scan-escape_item item done [])

  scan_comma :
      (rest : Text) (done : List Text) (item : Text)
      → scan_codes trim_space (b',' ∷ rest) (after_item done item)
        ≡ scan_codes trim_space rest (between (done ++ item ∷ []))
  unfolding scan_codes
  scan_comma rest done item = refl

  scan-joined :
      (item : Text) (items done : List Text)
      → (append_item trim_space (scan_codes trim_space (joined item items) (between done))).result
        ≡ done ++ item ∷ items
  unfolding joined append_item
  scan-joined item [] done =
      ap (λ (v : Scan). (append_item trim_space v).result) (scan-quoted_item item done)
  scan-joined item (next ∷ items) done =
      ap (λ (v : Scan). (append_item trim_space v).result)
        (scan_codes-append (quoted_item item) (b',' ∷ joined next items) (between done)
          ∙ ap (scan_codes trim_space (b',' ∷ joined next items)) (scan-quoted_item item done))
      ∙ (ap (λ (v : Scan). (append_item trim_space v).result)
            (scan_comma (joined next items) done item)
          ∙ (scan-joined next items (done ++ item ∷ [])
              ∙ append_assoc done (item ∷ []) (next ∷ items)))

joined-starts :
    (item : Text) (items : List Text) → (t : Text) × (joined item items ≡ quote_code ∷ t)
unfolding joined quoted_item escape_item
joined-starts item [] = (escape_item item ++ quote_code ∷ [], refl)
joined-starts item (next ∷ items) =
    ((escape_item item ++ quote_code ∷ []) ++ (b',' ∷ joined next items), refl)

joined-ends :
    (item : Text) (items : List Text) → (t : Text) × (joined item items ≡ t ++ quote_code ∷ [])
unfolding joined quoted_item escape_item
joined-ends item [] = (quote_code ∷ escape_item item, refl)
joined-ends item (next ∷ items) =
    let (t, e) = joined-ends next items in
    (
      quoted_item item ++ (b',' ∷ t),
      ap (λ (l : Text). quoted_item item ++ (b',' ∷ l)) e
          ∙ sym (append_assoc (quoted_item item) (b',' ∷ t) (quote_code ∷ [])),
    )

trim_right-quote : (t : Text) → trim_right (t ++ quote_code ∷ b'}' ∷ []) ≡ t ++ quote_code ∷ []
unfolding trim_right
trim_right-quote [] = refl
trim_right-quote (c ∷ cs) = ap (keep_right c) (trim_right-quote cs) ∙ keep_right-ends c cs
  where
    keep_right-ends :
        (c : ℕ) (cs : Text) → keep_right c (cs ++ quote_code ∷ []) ≡ c ∷ cs ++ quote_code ∷ []
    keep_right-ends c [] = refl
    keep_right-ends c (x ∷ xs) = refl

-- Both braces go, and nothing else.
trimmed :
    (item : Text) (items : List Text)
    → trim_right (trim_left (encode_text_array (item ∷ items))) ≡ joined item items
unfolding encode_text_array trim_left
trimmed item items =
    let (t, starts) = joined-starts item items in
    let (u, ends) = joined-ends item items in
    let left : trim_left (joined item items ++ b'}' ∷ []) ≡ joined item items ++ b'}' ∷ [] =
      subst (λ l. trim_left (l ++ b'}' ∷ []) ≡ l ++ b'}' ∷ []) (sym starts) refl in
    ap trim_right left
    ∙ (ap (λ (l : Text). trim_right (l ++ b'}' ∷ [])) ends
        ∙ (ap trim_right (append_assoc u (quote_code ∷ []) (b'}' ∷ []))
            ∙ (trim_right-quote u ∙ sym ends)))

module _ (trim_space : Text → Text) where
  scan_array-joined :
      (item : Text) (items : List Text) → scan_array trim_space (joined item items) ≡ item ∷ items
  unfolding scan_array
  scan_array-joined item items =
      let (t, starts) = joined-starts item items in
      subst
        (λ l.
          (append_item trim_space (scan_codes trim_space l scan_start)).result ≡ item ∷ items
          → scan_array trim_space l ≡ item ∷ items)
        (sym starts) (λ e. e) (scan-joined trim_space item items [])

  -- decodeTextArray gives back the list that encodeTextArray was given, whatever texts it holds,
  -- where TrimSpace keeps a text that starts with a brace from starting with a bracket.
  pub decode_text_array-encode_text_array :
      (parse_json : Text → Option (List Text)) (items : List Text)
      → ((t : Text) → starts_bracket (trim_space (b'{' ∷ t)) ≡ false)
      → decode_text_array trim_space parse_json (encode_text_array items) ≡ items
  unfolding decode_text_array encode_text_array
  decode_text_array-encode_text_array parse_json [] brace = rw (brace (b'}' ∷ [])) refl
  decode_text_array-encode_text_array parse_json (item ∷ items) brace =
      rw (brace (joined item items ++ b'}' ∷ []))
        (ap (scan_array trim_space) (trimmed item items) ∙ scan_array-joined item items)
