-- ===== src/Lvm/Property/RoundTrip.antt =====
-- A tag is read back as the property that it was printed from, as long as no value holds an equals
-- sign; a value that holds one is lost.
use mayastor.Common.{
  ℕ, List, [], ◌∷◌, ◌++◌, true, false, none, some, ◌≡◌, ◌≢◌, refl, ap, arith, Bool-cases, inl, inr,
  All, length, ◌≤◌,
}
use mayastor.Common.Text.{
  Text, same_text, same_text_sound, is_empty, split, join, non_empty, contains, Lacks, onto_first,
  split_lacking, split_ne_nil, split_at_sep, split-join, contains-append,
}
use mayastor.Lvm.Property.{
  Property, PropertyType, Protocol, off, nvmf, value_str, from_value, type_value, key, from_str,
  value, tag_of, tag, known, new_known, or_unknown, from_parts, new,
}

-- A name of a host that a list of hosts can keep.
abbrev pub IsHost : Text → Type 0
IsHost host = (is_empty host ≡ false) × Lacks b',' host × Lacks b'=' host

-- What a tag can keep: a value without an equals sign, and under an unknown key only what no known
-- key takes.
unfoldable pub IsStorable : Property → Type 0
IsStorable Property.lvm = Unit
IsStorable (Property.unknown k v) = (from_str k ≡ none) × Lacks b'=' k × Lacks b'=' v
IsStorable (Property.lv_name name) = Lacks b'=' name
IsStorable (Property.lv_share protocol) = Unit
IsStorable (Property.lv_allowed_hosts hosts) = All IsHost hosts
IsStorable (Property.lv_entity_id entity_id) = Lacks b'=' entity_id

-- The hosts that a list of hosts can keep are read back from it.
All-Lacks_comma : (hosts : List Text) → All IsHost hosts → All (Lacks b',') hosts
All-Lacks_comma [] h = tt
All-Lacks_comma (host ∷ hosts) (h, hs) = (h.1, All-Lacks_comma hosts hs)

non_empty-hosts : (hosts : List Text) → All IsHost hosts → non_empty hosts ≡ hosts
unfolding non_empty
non_empty-hosts [] h = refl
non_empty-hosts (host ∷ hosts) (h, hs) = rw (h.0, non_empty-hosts hosts hs) refl

no_hosts_back : non_empty (split b',' (join b',' [])) ≡ []
unfolding join split non_empty
no_hosts_back = refl

hosts_back :
    (hosts : List Text) → All IsHost hosts → non_empty (split b',' (join b',' hosts)) ≡ hosts
hosts_back [] h = no_hosts_back
hosts_back (host ∷ hosts) h =
    rw (split-join b',' (host ∷ hosts) (λ e. cc) (All-Lacks_comma (host ∷ hosts) h))
      (non_empty-hosts (host ∷ hosts) h)

join-Lacks : (hosts : List Text) → All IsHost hosts → Lacks b'=' (join b',' hosts)
unfolding join contains
join-Lacks [] h = refl
join-Lacks (host ∷ []) (h, hs) = h.2
join-Lacks (host ∷ next ∷ hosts) (h, hs) = ground (
  arith,
  contains-append b'=' host (b',' ∷ join b',' (next ∷ hosts)),
  h.2,
  join-Lacks (next ∷ hosts) hs,
)

-- One equals sign parts the key from the value.
new_pair :
    (k v : Text)
    → Lacks b'=' k
    → Lacks b'=' v
    → new (k ++ b'=' ∷ v) ≡ or_unknown k v (new_known k v)
unfolding new
new_pair k v hk hv =
    rw (split_at_sep b'=' k v hk, split_lacking b'=' v hv) (unfold from_parts in refl)

from_str-type_value :
    (t : PropertyType) → t ≢ PropertyType.unknown → from_str (type_value t) ≡ some t
unfolding from_str same_text
from_str-type_value PropertyType.lvm h = refl
from_str-type_value PropertyType.unknown h = absurd (h refl)
from_str-type_value PropertyType.lv_name h = refl
from_str-type_value PropertyType.lv_share h = refl
from_str-type_value PropertyType.lv_allowed_hosts h = refl
from_str-type_value PropertyType.lv_entity_id h = refl

type_value-Lacks : (t : PropertyType) → Lacks b'=' (type_value t)
unfolding type_value contains
type_value-Lacks PropertyType.lvm = refl
type_value-Lacks PropertyType.unknown = refl
type_value-Lacks PropertyType.lv_name = refl
type_value-Lacks PropertyType.lv_share = refl
type_value-Lacks PropertyType.lv_allowed_hosts = refl
type_value-Lacks PropertyType.lv_entity_id = refl

new_known-type_value :
    (t : PropertyType) (v : Text)
    → t ≢ PropertyType.unknown
    → new_known (type_value t) v ≡ known v t
unfolding new_known
new_known-type_value t v h = rw (from_str-type_value t h) refl

new_of_type :
    (t : PropertyType) (v : Text)
    → t ≢ PropertyType.unknown
    → Lacks b'=' v
    → new (type_value t ++ b'=' ∷ v) ≡ or_unknown (type_value t) v (known v t)
new_of_type t v ht hv =
    rw (new_pair (type_value t) v (type_value-Lacks t) hv, new_known-type_value t v ht) refl

value_str_back : (protocol : Protocol) → from_value (value_str protocol) ≡ protocol
unfolding from_value value_str same_text
value_str_back off = refl
value_str_back nvmf = refl

value_str-Lacks : (protocol : Protocol) → Lacks b'=' (value_str protocol)
unfolding value_str contains
value_str-Lacks off = refl
value_str-Lacks nvmf = refl

-- A property that a tag can keep is read back from its own tag: its value holds no equals sign, its
-- hosts are not empty and hold no comma, and an unknown key is no known one and holds no equals sign.
pub new-tag : (p : Property) → IsStorable p → new (tag p) ≡ p
unfolding tag key value tag_of IsStorable known
new-tag Property.lvm h = unfold new from_parts new_known split same_text from_str in refl
new-tag (Property.unknown k v) (hf, hk, hv) =
    rw (new_pair k v hk hv) (unfold new_known in rw hf refl)
new-tag (Property.lv_name name) h = new_of_type PropertyType.lv_name name (λ e. cc) h
new-tag (Property.lv_share protocol) h =
    rw (new_of_type PropertyType.lv_share (value_str protocol) (λ e. cc) (value_str-Lacks protocol))
      (ap Property.lv_share (value_str_back protocol))
new-tag (Property.lv_allowed_hosts hosts) h =
    rw (new_of_type PropertyType.lv_allowed_hosts (join b',' hosts) (λ e. cc) (join-Lacks hosts h))
      (ap Property.lv_allowed_hosts (hosts_back hosts h))
new-tag (Property.lv_entity_id entity_id) h =
    new_of_type PropertyType.lv_entity_id entity_id (λ e. cc) h

-- Every separator makes one more part.
le-onto_first : (c : ℕ) (parts : List Text) → length parts ≤ length (onto_first c parts)
le-onto_first c [] = omega arith
le-onto_first c (part ∷ parts) = omega arith

split_containing : (sep : ℕ) (s : Text) → contains sep s ≡ true → 2 ≤ length (split sep s)
unfolding split contains
split_containing sep [] h = cc
split_containing sep (c ∷ s) h =
    ground (arith, split_containing sep s, split_ne_nil sep s, le-onto_first c (split sep s))

split_twice : (sep : ℕ) (s t : Text) → contains sep t ≡ true → 3 ≤ length (split sep (s ++ sep ∷ t))
unfolding split
split_twice sep [] t h = ground (arith, split_containing sep t h)
split_twice sep (c ∷ s) t h =
    ground (arith, split_twice sep s t h, le-onto_first c (split sep (s ++ sep ∷ t)))

from_parts_many :
    (t : Text) (parts : List Text)
    → 3 ≤ length parts
    → from_parts t parts ≡ or_unknown t [] (new_known t [])
unfolding from_parts
from_parts_many t [] h = refl
from_parts_many t (k ∷ []) h = refl
from_parts_many t (k ∷ v ∷ []) h = absurd (omega arith)
from_parts_many t (k ∷ v ∷ w ∷ parts) h = refl

same_text_other : (c : ℕ) (s t : Text) → contains c s ≡ true → Lacks c t → same_text s t ≡ false
same_text_other c s t hs ht = elim (Bool-cases (same_text s t)) [
  | inl e ↦ cc (ap (contains c) (same_text_sound s t e), hs, ht)
  | inr e ↦ e
]

from_str-equals : (s : Text) → contains b'=' s ≡ true → from_str s ≡ none
unfolding from_str
from_str-equals s h =
    let differs =
      λ (t : PropertyType). same_text_other b'=' s (type_value t) h (type_value-Lacks t) in
    rw
      (
        differs PropertyType.lvm,
        differs PropertyType.lv_name,
        differs PropertyType.lv_share,
        differs PropertyType.lv_allowed_hosts,
        differs PropertyType.lv_entity_id,
      )
      refl

new_known-equals : (s : Text) → contains b'=' s ≡ true → new_known s [] ≡ none
unfolding new_known
new_known-equals s h = rw (from_str-equals s h) refl

contains_behind : (c : ℕ) (s t : Text) → contains c (s ++ c ∷ t) ≡ true
unfolding contains
contains_behind c [] t = ground arith
contains_behind c (x ∷ s) t = ground (arith, contains_behind c s t)

-- A value with an equals sign is lost: the tag of the property is read back as an unknown property,
-- with the whole tag for its key.
pub new-equals :
    (p : Property) (v : Text)
    → value p ≡ some v
    → contains b'=' v ≡ true
    → new (tag p) ≡ Property.unknown (tag p) []
unfolding tag tag_of new
new-equals p v hp hv =
    rw
      (
        hp,
        from_parts_many (key p ++ b'=' ∷ v) _ (split_twice b'=' (key p) v hv),
        new_known-equals (key p ++ b'=' ∷ v) (contains_behind b'=' (key p) v),
      )
      refl
