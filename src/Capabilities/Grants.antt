-- ===== src/Capabilities/Grants.antt =====
-- The tools and integrations that a compiled profile grants.
use ai_voice_assistants.Common.{
  ◌≡◌, refl, String, Bool, true, false, ◌&&◌, ◌||◌, Option, none, some, List, [], ◌∷◌, arith, any,
  ◌==◌, ◌∙◌,
}
use ai_voice_assistants.Capabilities.Registry.{Capability, Known, known, is_implemented}
use ai_voice_assistants.Capabilities.Compile.{
  Document, Profile, Compiled, ok, enabled_ids, require_implemented, rank, insert, sorted, compiled,
  require_some, check_languages, default_of, requested, >>=-Succeeds, compile_company_capabilities,
}

any-insert :
    (p : Capability → Bool) (d : Capability) (cs : List Capability)
    → any p (insert d cs) ≡ (p d || any p cs)
unfolding insert
any-insert p d [] = refl
any-insert p d (e ∷ cs) = ground (arith, any-insert p d cs)

pub any-sorted : (p : Capability → Bool) (cs : List Capability) → any p (sorted cs) ≡ any p cs
unfolding sorted
any-sorted p [] = refl
any-sorted p (d ∷ cs) = ground (arith, any-insert p d (sorted cs), any-sorted p cs)

-- What a profile that compiles is compiled from.
pub record Parts (document : Document) (profile : Profile) (r : Compiled) : Type 0 where
  pub enabled : List Capability
  pub languages : List String
  pub implemented : require_implemented (enabled_ids profile.capabilities) ≡ ok enabled
  pub checked : check_languages (default_of profile) (requested profile) ≡ ok languages
  pub result : compiled document enabled (default_of profile) languages ≡ r

require_some-eq-ok :
    (cs : List Capability) {ds : List Capability} → require_some cs ≡ ok ds → cs ≡ ds
unfolding require_some
require_some-eq-ok [] h = ground arith
require_some-eq-ok (c ∷ cs) h = ground arith

pub compile-Parts :
    (document : Document) (profile : Profile) (r : Compiled)
    → compile_company_capabilities document profile ≡ ok r
    → Parts document profile r
unfolding compile_company_capabilities
compile-Parts document profile r h =
    let x = >>=-Succeeds _ (require_implemented (enabled_ids profile.capabilities)) h in
    let y = >>=-Succeeds _ (require_some x.value) x.ends in
    let z = >>=-Succeeds _ (check_languages (default_of profile) (requested profile)) y.ends in
    let final = z.ends in
    record {
      enabled = y.value;
      languages = z.value;
      implemented = rw (← require_some-eq-ok x.value y.begins) x.begins;
      checked = z.begins;
      result = ground arith;
    }

abbrev pub same : Capability → Capability → Bool
same c d = rank c == rank d

abbrev pub known_is : Capability → Known → Bool
known_is c (Known.own d) = same c d
known_is c (Known.foreign id) = false

abbrev known_is? : Capability → Option Known → Bool
known_is? c none = false
known_is? c (some k) = known_is c k

-- The profile has an enabled entry under the ID of the capability.
abbrev pub entry_enables : Capability → String × Bool → Bool
entry_enables c (id, enabled) = enabled && known_is? c (known id)

any-enabled_ids :
    (c : Capability) (entries : List (String × Bool))
    → any (known_is c) (enabled_ids entries) ≡ any (entry_enables c) entries
unfolding enabled_ids
any-enabled_ids c [] = refl
any-enabled_ids c ((id, enabled) ∷ rest) = ground (arith, any-enabled_ids c rest)

same-eq : (c d : Capability) → same c d ≡ true → c ≡ d
same-eq c d h = ground arith

any-require_implemented :
    (c : Capability) (ks : List Known) (cs : List Capability)
    → require_implemented ks ≡ ok cs
    → (any (same c) cs ≡ any (known_is c) ks) × (any (same c) cs ≡ true → is_implemented c ≡ true)
unfolding require_implemented
any-require_implemented c [] [] h = (refl, λ e. ground arith)
any-require_implemented c [] (d ∷ cs) h = ground arith
any-require_implemented c (Known.own d ∷ ks) [] h = ground arith
any-require_implemented c (Known.own d ∷ ks) (e ∷ cs) h =
    let rest = any-require_implemented c ks cs (ground arith) in
    let front : d ≡ e = ground arith in
    let works : is_implemented e ≡ true = ground arith in
    (ground (arith, rest.0), λ found. ground (arith, rest.1, same-eq c e))
any-require_implemented c (Known.foreign id ∷ ks) cs h = ground arith

-- A profile that compiles has exactly the capabilities that it enables, and each of them is
-- implemented.
pub compile-capabilities :
    (document : Document) (profile : Profile) (r : Compiled) (c : Capability)
    → compile_company_capabilities document profile ≡ ok r
    → (any (same c) r.capabilities ≡ any (entry_enables c) profile.capabilities)
      × (any (same c) r.capabilities ≡ true → is_implemented c ≡ true)
unfolding compiled
compile-capabilities document profile r c h =
    let parts = compile-Parts document profile r h in
    let ids = enabled_ids profile.capabilities in
    let (listed, works) = any-require_implemented c ids parts.enabled parts.implemented in
    rw (← parts.result, any-sorted (same c) parts.enabled)
      (listed ∙ any-enabled_ids c profile.capabilities, works)
