-- ===== src/Store/Table.antt =====
-- The laws of the shared hash table, at the key that an operation names and at any other.
use pg_stat_ch_otel_backend.Base.{◌≡◌, ◌≢◌, refl, ◌∙◌, none, some, if_pos, if_neg}
use pg_stat_ch_otel_backend.Store.{Key, Key-discrete, Entry, External}

module _ {T : Type 0} (ext : External T) (t : T) (k : Key) where
  pub assign_self : (e d : Entry) → ext.find t k ≡ some d → ext.find (ext.assign t k e) k ≡ some e
  assign_self e d f =
      ext.find-assign t k k e d f ∙ if_pos (Key-discrete k k) refl (some e) (ext.find t k)

  pub assign_ne :
      (j : Key) (e d : Entry)
      → ext.find t k ≡ some d
      → k ≢ j
      → ext.find (ext.assign t k e) j ≡ ext.find t j
  assign_ne j e d f n =
      ext.find-assign t k j e d f ∙ if_neg (Key-discrete k j) n (some e) (ext.find t j)

  pub enter_self : (t' : T) (e : Entry) → ext.enter t k e ≡ some t' → ext.find t' k ≡ some e
  enter_self t' e f =
      ext.find-enter t t' k k e f ∙ if_pos (Key-discrete k k) refl (some e) (ext.find t k)

  pub enter_ne :
      (j : Key) (t' : T) (e : Entry)
      → ext.enter t k e ≡ some t'
      → k ≢ j
      → ext.find t' j ≡ ext.find t j
  enter_ne j t' e f n =
      ext.find-enter t t' k j e f ∙ if_neg (Key-discrete k j) n (some e) (ext.find t j)

  pub remove_self : ext.find (ext.remove t k) k ≡ none
  remove_self = ext.find-remove t k k ∙ if_pos (Key-discrete k k) refl none (ext.find t k)

  pub remove_ne : (j : Key) → k ≢ j → ext.find (ext.remove t k) j ≡ ext.find t j
  remove_ne j n = ext.find-remove t k j ∙ if_neg (Key-discrete k j) n none (ext.find t j)
