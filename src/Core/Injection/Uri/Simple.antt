-- ===== src/Core/Injection/Uri/Simple.antt =====
-- A reader of the URIs that injections have, which meets what the code relies on in the crate url.
use mayastor.Common.{
  ℕ, List, [], ◌∷◌, ◌++◌, false, Option, none, some, ◌==◌, map, ◌≡◌, inl, inr, refl, ap, arith,
  Bool-cases, All,
}
use mayastor.Common.Text.{
  Text, codes, split, join, non_empty, contains, Lacks, split_lacking, split_at_sep, split-join,
  contains-append,
}
use mayastor.Core.Injection.Method.{strip_prefix}
use mayastor.Core.Injection.Uri.{Url, option_text}
use mayastor.Core.Injection.Uri.Plain.{plain, IsPlain, IsPlainPair}
use mayastor.Core.Injection.Uri.Whole.{uri_text, UrlLaws}

pair_in : Text → List Text → Text × Text
pair_in part (k ∷ v ∷ []) = (k, v)
pair_in part _ = (part, [])

pair_of : Text → Text × Text
unfolding pair_in
pair_of part = pair_in part (split b'=' part)

url_in : List Text → Option Url
unfolding pair_of
url_in (name ∷ query ∷ []) =
    some (record { name = name; query_pairs = map pair_of (non_empty (split b'&' query)) })
url_in _ = none

url_behind : Option Text → Option Url
unfolding url_in
url_behind none = none
url_behind (some rest) = url_in (split b'?' rest)

pub read_url : Text → Option Url
unfolding url_behind strip_prefix
read_url text = url_behind (strip_prefix (codes "inject://") text)

abbrev pub IsName : Text → Type 0
IsName name = Lacks b'?' name

-- A plain text lacks every character that is not plain.
plain-Lacks : (c : ℕ) (s : Text) → plain c ≡ false → IsPlain s → Lacks c s
unfolding contains
plain-Lacks c [] h k = refl
plain-Lacks c (d ∷ s) h (k, ks) = elim (Bool-cases (d == c)) [
  | inl e ↦ ground (arith, e, h, k)
  | inr e ↦ rw e (plain-Lacks c s h ks)
]

option-Lacks :
    (c : ℕ) (p : Text × Text)
    → plain c ≡ false
    → (b'=' == c) ≡ false
    → IsPlainPair p
    → Lacks c (option_text p)
unfolding contains
option-Lacks c (k, v) h e (hk, hv) =
    rw (contains-append c k (b'=' ∷ v), plain-Lacks c k h hk, plain-Lacks c v h hv, e) refl

pair_of-option_text : (p : Text × Text) → IsPlainPair p → pair_of (option_text p) ≡ p
unfolding pair_of pair_in
pair_of-option_text (k, v) (hk, hv) =
    rw
      (
        split_at_sep b'=' k v (plain-Lacks b'=' k refl hk),
        split_lacking b'=' v (plain-Lacks b'=' v refl hv),
      )
      refl

pairs_back : (ps : List (Text × Text)) → All IsPlainPair ps → map pair_of (map option_text ps) ≡ ps
pairs_back [] h = refl
pairs_back (p ∷ ps) (h, hs) = cc (pair_of-option_text p h, pairs_back ps hs)

options-non_empty : (ps : List (Text × Text)) → non_empty (map option_text ps) ≡ map option_text ps
unfolding non_empty
options-non_empty [] = refl
options-non_empty (([], v) ∷ ps) = ap (λ l. (b'=' ∷ v) ∷ l) (options-non_empty ps)
options-non_empty ((c ∷ k, v) ∷ ps) = ap (λ l. (c ∷ (k ++ b'=' ∷ v)) ∷ l) (options-non_empty ps)

options-Lacks :
    (c : ℕ) (ps : List (Text × Text))
    → plain c ≡ false
    → (b'=' == c) ≡ false
    → All IsPlainPair ps
    → All (Lacks c) (map option_text ps)
options-Lacks c [] h e k = tt
options-Lacks c (p ∷ ps) h e (k, ks) = (option-Lacks c p h e k, options-Lacks c ps h e ks)

join-Lacks :
    (c sep : ℕ) (parts : List Text)
    → (sep == c) ≡ false
    → All (Lacks c) parts
    → Lacks c (join sep parts)
unfolding join contains
join-Lacks c sep [] e h = refl
join-Lacks c sep (p ∷ []) e (h, hs) = h
join-Lacks c sep (p ∷ q ∷ parts) e (h, hs) =
    rw (contains-append c p (sep ∷ join sep (q ∷ parts)), h, e) (join-Lacks c sep (q ∷ parts) e hs)

parts_back :
    (ps : List (Text × Text))
    → All IsPlainPair ps
    → non_empty (split b'&' (join b'&' (map option_text ps))) ≡ map option_text ps
parts_back [] h = unfold join split non_empty in refl
parts_back (p ∷ ps) h =
    rw
      (split-join b'&' (map option_text (p ∷ ps)) (λ e. cc)
        (options-Lacks b'&' (p ∷ ps) refl refl h))
      (options-non_empty (p ∷ ps))

reads_back :
    (name : Text) (ps : List (Text × Text))
    → IsName name
    → All IsPlainPair ps
    → read_url (uri_text name ps) ≡ some (record { name = name; query_pairs = ps })
unfolding read_url url_behind url_in strip_prefix
reads_back name ps h k =
    rw
      (
        split_at_sep b'?' name (join b'&' (map option_text ps)) h,
        split_lacking b'?' (join b'&' (map option_text ps))
            (join-Lacks b'?' b'&' (map option_text ps) refl (options-Lacks b'?' ps refl refl k)),
        parts_back ps k,
        pairs_back ps k,
      )
      refl

pub read_url_laws : UrlLaws IsName read_url
read_url_laws = record {
  reads_back =
      λ name ps h k. (record { name = name; query_pairs = ps }, reads_back name ps h k, refl, refl);
}
