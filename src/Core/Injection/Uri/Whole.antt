-- ===== src/Core/Injection/Uri/Whole.antt =====
-- An injection is read back from its own URI, given what the code relies on in the crate url.
use mayastor.Common.{
  ℕ, ◌+◌, ◌≤◌, List, ◌∷◌, ◌++◌, false, Option, some, min, ltb, ◌==◌, ok, map, ◌≡◌, inl, inr, ap,
  ◌∙◌, arith, Bool-cases, All, if◌then◌else◌,
}
use mayastor.Common.Words.{sub64, sub64_exact}
use mayastor.Common.Text.{Text, codes, join}
use mayastor.Core.Injection.{u64_max, NvmeCodes, InjectionState, Injection}
use mayastor.Core.Injection.Method.{strip_prefix}
use mayastor.Core.Injection.Method.RoundTrip.{NvmeLaws}
use mayastor.Core.Injection.Uri.{Url, option_text, finish_uri, from_url, from_uri, options, as_uri}
use mayastor.Core.Injection.Uri.Plain.{IsPlainPair, options-IsPlain}
use mayastor.Core.Injection.Uri.RoundTrip.{IsExpressible, read_as, blocks_of, read_options}

-- The URI of a name and of options.
abbrev pub uri_text : Text → List (Text × Text) → Text
uri_text name ps = codes "inject://" ++ name ++ b'?' ∷ join b'&' (map option_text ps)

-- What the code relies on in `Url::parse`: of a URI made of a name that it takes for a host and a
-- path, and of plain options, it gives back the two.
pub record UrlLaws (IsName : Text → Type 0) (parse_url : Text → Option Url) : Type 0 where
  pub reads_back :
      (name : Text) (ps : List (Text × Text))
      → IsName name
      → All IsPlainPair ps
      → (u : Url) × (parse_url (uri_text name ps) ≡ some u) × (u.name ≡ name) × (u.query_pairs ≡ ps)

blocks_rejoin :
    (a b : ℕ)
    → a ≤ b
    → b ≤ u64_max
    → min (a + (if b == u64_max then u64_max else sub64 b a)) u64_max ≡ b
blocks_rejoin a b h k = elim (Bool-cases (b == u64_max)) [
  | inl e ↦ rw e (ground (arith, e))
  | inr e ↦ rw (e, sub64_exact b a h (omega (arith, k))) (omega (arith, h, k))
]

in_time : (a b : ℕ) → a ≤ b → ltb b a ≡ false
in_time a b h = ground (arith, h)

module _ {N : Type 0} (c : NvmeCodes N) (laws : NvmeLaws c) {R : Type 0} where
  finish_read :
      (r : Injection N R) (text : Text) (state : InjectionState R)
      → IsExpressible c laws r
      → finish_uri c (read_as c laws r text state (blocks_of c laws r))
        ≡ ok (record r { uri = some text; state = state })
  unfolding finish_uri
  finish_read r text state fits = rw (in_time r.time_start r.time_end fits.in_order) (
      ap (λ (b : ℕ). ok (record r { uri = some text; state = state; block_end = b }))
        (blocks_rejoin r.block_start r.block_end fits.blocks_in_order fits.blocks_fit))

  -- What is left of reading once the crate has taken the URI apart.
  from_url_reads :
      (r : Injection N R) (text : Text) (state : InjectionState R) (u : Url)
      → IsExpressible c laws r
      → u.name ≡ r.device_name
      → u.query_pairs ≡ options c r
      → from_url c text state (some u) ≡ ok (record r { uri = some text; state = state })
  unfolding from_url
  from_url_reads r text state u fits h k =
      rw (h, k, read_options c laws r fits text state) (finish_read r text state fits)

  from_uri_at :
      (parse_url : Text → Option Url) (state : InjectionState R) (name : Text)
      (ps : List (Text × Text)) (u : Url)
      → parse_url (uri_text name ps) ≡ some u
      → from_uri c parse_url state (uri_text name ps) ≡ from_url c (uri_text name ps) state (some u)
  unfolding from_uri strip_prefix
  from_uri_at parse_url state name ps u h = ap (from_url c (uri_text name ps) state) h

  -- An injection that a URI can tell is read back from the URI that is built for it, the same but
  -- for its state, which is a new one, and with that URI: its method prints all of itself, its times
  -- are whole milliseconds, its ranges are not reversed, its numbers fit in a u64, and the crates url
  -- and spdk_rs give back what they were given.
  pub from_uri-as_uri :
      (IsName : Text → Type 0) (parse_url : Text → Option Url)
      → UrlLaws IsName parse_url
      → (r : Injection N R) (state : InjectionState R) → IsName r.device_name
      → IsExpressible c laws r
      → from_uri c parse_url state (as_uri c r)
        ≡ ok (record r { uri = some (as_uri c r); state = state })
  unfolding as_uri
  from_uri-as_uri IsName parse_url url r state named fits =
      let (u, parsed, same_name, same_pairs) =
        url.reads_back r.device_name (options c r) named (options-IsPlain c r).all in
      from_uri_at parse_url state r.device_name (options c r) u parsed
      ∙ from_url_reads r (as_uri c r) state u fits same_name same_pairs
