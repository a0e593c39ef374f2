-- ===== src/Export/ArrowBatch/Attributes/RoundTrip.antt =====
-- ExtraAttrs that are written as "key:value;key:value" are found again under their keys.
use pg_stat_ch_otel_backend.Base.{
  ℕ, suc, ◌≡◌, ◌≢◌, refl, ap, ◌∙◌, Bool, false, Option, none, some, List, [], ◌∷◌, ◌++◌, length,
  take, drop, take_of_length-le, get_or, list_eq_iff, ◌==◌, arith, Option-cases, inl, inr,
}
use pg_stat_ch_otel_backend.Strings.{skip_leading, trimmed_len}
use pg_stat_ch_otel_backend.Export.ArrowBatch.Attributes.{
  ExtraAttrs, index_of, find_attr, extra_attr, emplace, trim_ascii_whitespace, add_token,
  parse_extra_attributes,
}
use pg_stat_ch_otel_backend.Export.ArrowBatch.Attributes.Split.{
  split_on, add_tokens, add_tokens_empty, parse_extra_attributes-add_tokens,
}

-- "key:value", and such pairs with semicolons between them
unfoldable pub write_attr : List ℕ × List ℕ → List ℕ
write_attr (key, value) = key ++ (b':' ∷ value)

unfoldable pub write_attrs : ExtraAttrs → List ℕ
unfolding write_attr
write_attrs [] = []
write_attrs (a ∷ []) = write_attr a
write_attrs (a ∷ b ∷ attrs) = write_attr a ++ (b';' ∷ write_attrs (b ∷ attrs))

-- No white space at the ends.
pub record IsTrimmed (isspace : ℕ → Bool) (c : ℕ) (cs : List ℕ) : Type 0 where
  pub front : isspace c ≡ false
  pub back : isspace (get_or (c ∷ cs) (length cs) 0) ≡ false

abbrev pub IsTrimmedText : (ℕ → Bool) → List ℕ → Type 0
IsTrimmedText isspace [] = Unit {0}
IsTrimmedText isspace (c ∷ cs) = IsTrimmed isspace c cs

abbrev pub Lacks : ℕ → List ℕ → Type 0
Lacks d [] = Unit {0}
Lacks d (x ∷ xs) = ((x == d) ≡ false) × Lacks d xs

-- A key that is not empty, and neither it nor its value has a delimiter or white space at an end.
pub record IsPlain (isspace : ℕ → Bool) (key value : List ℕ) : Type 0 where
  pub filled : key ≢ []
  pub key_trimmed : IsTrimmedText isspace key
  pub value_trimmed : IsTrimmedText isspace value
  pub key_whole : Lacks b':' key
  pub key_one : Lacks b';' key
  pub value_one : Lacks b';' value

abbrev pub ArePlain : (ℕ → Bool) → ExtraAttrs → Type 0
ArePlain isspace [] = Unit {0}
ArePlain isspace ((key, value) ∷ attrs) = IsPlain isspace key value × ArePlain isspace attrs

Lacks-append : (d : ℕ) (xs ys : List ℕ) → Lacks d xs → Lacks d ys → Lacks d (xs ++ ys)
Lacks-append d [] ys h k = k
Lacks-append d (x ∷ xs) ys (e, h) k = (e, Lacks-append d xs ys h k)

index_of-append :
    (d : ℕ) (xs ys : List ℕ) → Lacks d xs → index_of d (xs ++ (d ∷ ys)) ≡ some (length xs)
unfolding index_of
index_of-append d [] ys h = ground arith
index_of-append d (x ∷ xs) ys (e, h) = rw (e, index_of-append d xs ys h) refl

take-length : (xs ys : List ℕ) → take (length xs) (xs ++ ys) ≡ xs
take-length [] ys = refl
take-length (x ∷ xs) ys = ap (◌∷◌ x) (take-length xs ys)

drop-length : (d : ℕ) (xs ys : List ℕ) → drop (suc (length xs)) (xs ++ (d ∷ ys)) ≡ ys
drop-length d [] ys = refl
drop-length d (x ∷ xs) ys = drop-length d xs ys

split_on-Lacks : (d : ℕ) (xs : List ℕ) → Lacks d xs → split_on d xs ≡ xs ∷ []
unfolding split_on
split_on-Lacks d [] h = refl
split_on-Lacks d (x ∷ xs) (e, h) = rw (e, split_on-Lacks d xs h) refl

split_on-append :
    (d : ℕ) (xs ys : List ℕ) → Lacks d xs → split_on d (xs ++ (d ∷ ys)) ≡ xs ∷ split_on d ys
unfolding split_on
split_on-append d [] ys h = ground arith
split_on-append d (x ∷ xs) ys (e, h) = rw (e, split_on-append d xs ys h) refl

abbrev pub or_else : Option (List ℕ) → Option (List ℕ) → Option (List ℕ)
or_else none b = b
or_else (some v) b = some v

or_else_assoc : (a b c : Option (List ℕ)) → or_else (or_else a b) c ≡ or_else a (or_else b c)
or_else_assoc none b c = refl
or_else_assoc (some v) b c = refl

find_attr-append :
    (k : List ℕ) (m n : ExtraAttrs) → find_attr k (m ++ n) ≡ or_else (find_attr k m) (find_attr k n)
unfolding find_attr
find_attr-append k [] n = refl
find_attr-append k ((j, v) ∷ m) n = ground (arith, find_attr-append k m n)

no_more : (k : List ℕ) (m : ExtraAttrs) → find_attr k m ≡ or_else (find_attr k m) (find_attr k [])
unfolding find_attr
no_more k m = elim (Option-cases (find_attr k m)) [ inl e ↦ rw e refl | inr (v, e) ↦ rw e refl ]

-- The first value of a key stays.
find_attr-emplace :
    (k j v : List ℕ) (m : ExtraAttrs)
    → find_attr k (emplace j v m) ≡ or_else (find_attr k m) (find_attr k ((j, v) ∷ []))
unfolding emplace
find_attr-emplace k j v m = elim (Option-cases (find_attr j m)) [
  | inl e ↦ rw (e, emplace) (find_attr-append k m ((j, v) ∷ []))
  | inr (w, e) ↦ rw (e, emplace) (kept w e (find_attr k m) refl)
]
  where
    kept :
        (w : List ℕ)
        → find_attr j m ≡ some w
        → (o : Option (List ℕ)) → find_attr k m ≡ o
        → find_attr k m ≡ or_else (find_attr k m) (find_attr k ((j, v) ∷ []))
    kept w e (some x) h = rw h refl
    kept w e none h = rw h (ground (arith, e, h, list_eq_iff j k))

module _ (isspace : ℕ → Bool) where
  trim-IsTrimmedText :
      (text : List ℕ) → IsTrimmedText isspace text → trim_ascii_whitespace isspace text ≡ text
  unfolding trim_ascii_whitespace skip_leading trimmed_len
  trim-IsTrimmedText [] h = refl
  trim-IsTrimmedText (c ∷ cs) h =
      rw (h.front, h.back) (take_of_length-le (suc (length cs)) (c ∷ cs) (omega arith))

  add_token_at :
      (token : List ℕ) (sep c : ℕ) (cs value : List ℕ) (attrs : ExtraAttrs)
      → index_of b':' token ≡ some sep
      → trim_ascii_whitespace isspace (take sep token) ≡ c ∷ cs
      → trim_ascii_whitespace isspace (drop (suc sep) token) ≡ value
      → add_token isspace token attrs ≡ emplace (c ∷ cs) value attrs
  unfolding add_token
  add_token_at token sep c cs value attrs at key val = rw (at, key, val, add_token) refl

  -- A written token is added under its key.
  add_token-write_attr :
      (key value : List ℕ) (attrs : ExtraAttrs)
      → IsPlain isspace key value
      → add_token isspace (write_attr (key, value)) attrs ≡ emplace key value attrs
  unfolding write_attr
  add_token-write_attr [] value attrs p = absurd (p.filled refl)
  add_token-write_attr (c ∷ cs) value attrs p =
      add_token_at (write_attr (c ∷ cs, value)) (length (c ∷ cs)) c cs value attrs
        (index_of-append b':' (c ∷ cs) value p.key_whole)
        (ap (trim_ascii_whitespace isspace) (take-length (c ∷ cs) (b':' ∷ value))
          ∙ trim-IsTrimmedText (c ∷ cs) p.key_trimmed)
        (ap (trim_ascii_whitespace isspace) (drop-length b':' (c ∷ cs) value)
          ∙ trim-IsTrimmedText value p.value_trimmed)

  write_attr-Lacks :
      (key value : List ℕ) → IsPlain isspace key value → Lacks b';' (write_attr (key, value))
  unfolding write_attr
  write_attr-Lacks key value p = Lacks-append b';' key (b':' ∷ value) p.key_one (refl, p.value_one)

  add_tokens-write_attrs :
      (k : List ℕ) (attrs m : ExtraAttrs)
      → ArePlain isspace attrs
      → find_attr k (add_tokens isspace (split_on b';' (write_attrs attrs)) m)
        ≡ or_else (find_attr k m) (find_attr k attrs)
  unfolding add_tokens write_attrs
  add_tokens-write_attrs k [] m p = rw (add_tokens_empty isspace m) (no_more k m)
  add_tokens-write_attrs k ((j, v) ∷ []) m (p, ps) =
      rw
        (
          split_on-Lacks b';' (write_attr (j, v)) (write_attr-Lacks j v p),
          add_token-write_attr j v m p,
        )
        (find_attr-emplace k j v m)
  add_tokens-write_attrs k ((j, v) ∷ b ∷ attrs) m (p, ps) =
      rw
        (
          split_on-append b';' (write_attr (j, v)) (write_attrs (b ∷ attrs))
              (write_attr-Lacks j v p),
          add_tokens,
          add_token-write_attr j v m p,
          add_tokens-write_attrs k (b ∷ attrs) (emplace j v m) ps,
          find_attr-emplace k j v m,
          or_else_assoc,
          find_attr-append k ((j, v) ∷ []) (b ∷ attrs),
        )
        refl

  -- Where attributes are written as key:value with semicolons between them, and no key is empty
  -- or has a delimiter, no value has a semicolon, and neither has white space at an end,
  -- ExtraAttr after ParseExtraAttributes gives for each key the first value that was written for
  -- it, and the empty text for a key that was not written.
  pub extra_attr-write_attrs :
      (key : List ℕ) (attrs : ExtraAttrs)
      → ArePlain isspace attrs
      → extra_attr key (parse_extra_attributes isspace (write_attrs attrs)) ≡ extra_attr key attrs
  unfolding extra_attr
  extra_attr-write_attrs key attrs p =
      rw
        (
          parse_extra_attributes-add_tokens isspace (write_attrs attrs),
          extra_attr,
          add_tokens-write_attrs key attrs [] p,
        )
        refl
