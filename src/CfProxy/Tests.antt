-- ===== src/CfProxy/Tests.antt =====
-- The theorems on src/cfproxy_domains.go at concrete inputs.
use tg_ws_proxy_go.Base.{
  inl, ap, bytes_equal, ℕ, ◌≤◌, ◌≡◌, refl, List, [], ◌∷◌, ◌++◌, Bool, true, false, not, ◌&&◌, arith,
  Bytes, ◌==◌, length, bytes_equal_refl, no_entries, read_or,
}
use tg_ws_proxy_go.CfProxy.Names.{
  Domain, contains, append_unique, append_unique_domains, normalize_cf_proxy_domain, Distinct, trim,
  trim_left, trim_right, lower, to_lower, is_space, is_name_char,
}
use tg_ws_proxy_go.CfProxy.State.{
  CfState, dns, success, other, begin_fallback_dial, finish_fallback_dial, set_cf_proxy_domains,
  failures,
}
use tg_ws_proxy_go.CfProxy.Dials.{
  Cluster, begins, CfReach, at_start, next, with_active, key_of, CfReach-active,
}
use tg_ws_proxy_go.CfProxy.Cooldown.{
  DialCall, begins, finishes, call_all, begin_fallback_dial-cooldown,
}
use tg_ws_proxy_go.CfProxy.Fallback.{FallbackTrial}
use tg_ws_proxy_go.CfProxy.Choice.{
  cf_proxy_domains_for_try, is_free, cf_proxy_domains_for_try-contains,
}
use tg_ws_proxy_go.CfProxy.Pool.{IsPool, set_cf_proxy_domains-IsPool}
use tg_ws_proxy_go.CfProxy.Fetch.{
  split_by, split_first, fetched_cf_proxy_domains, decode_cf_proxy_domain, is_valid_name, letters,
  dot_co_uk, take_lines, take_line, decode_base, has_prefix, has_suffix, is_label, all_labels,
  is_tld, shift_back,
}
use tg_ws_proxy_go.CfProxy.Fetched.{
  fetched_cf_proxy_domains-valid, decode_cf_proxy_domain-encode_base,
}

-- a.de, b.de and c.de.
abbrev a_de : Domain
a_de = b'a' ∷ b'.' ∷ b'd' ∷ b'e' ∷ []

abbrev b_de : Domain
b_de = b'b' ∷ b'.' ∷ b'd' ∷ b'e' ∷ []

abbrev c_de : Domain
c_de = b'c' ∷ b'.' ∷ b'd' ∷ b'e' ∷ []

-- A.de with a blank behind it.
abbrev loud_a_de : Bytes
loud_a_de = b'A' ∷ b'.' ∷ b'd' ∷ b'e' ∷ 0x20 ∷ []

abbrev two_domains : CfState
two_domains = record {
  domains = a_de ∷ b_de ∷ [];
  worker_domains = [];
  active = a_de;
  per_dc_active = no_entries;
  last_domain = a_de;
  fail_until = no_entries;
  worker_fail_until = no_entries;
  fallback_dials = no_entries;
}

abbrev one_dial : Cluster
one_dial = record {
  state = (begin_fallback_dial two_domains b_de false 100).0;
  active = with_active (λ k. 0) (key_of b_de false) 1;
}

one_dial-CfReach : CfReach one_dial
one_dial-CfReach = next (at_start two_domains refl) (
    begins (record { state = two_domains; active = λ k. 0 }) b_de false 100
      (unfold begin_fallback_dial contains in refl))

CfReach-active_example :
    (one_dial.active (key_of b_de false) ≤ 4)
    × (read_or (one_dial.state.fallback_dials (key_of b_de false)) 0
        ≡ one_dial.active (key_of b_de false))
CfReach-active_example = CfReach-active (key_of b_de false) one_dial-CfReach

abbrev no_shuffle : List Domain → List Domain
no_shuffle xs = xs

cf_proxy_domains_for_try-contains_example :
    (contains (cf_proxy_domains_for_try no_shuffle two_domains 2 100).1 b_de
      ≡ contains two_domains.domains b_de && is_free two_domains.fail_until b_de 100)
    × (is_free (cf_proxy_domains_for_try no_shuffle two_domains 2 100).0.fail_until b_de 100
        ≡ is_free two_domains.fail_until b_de 100)
cf_proxy_domains_for_try-contains_example =
    cf_proxy_domains_for_try-contains no_shuffle two_domains 2 100 b_de (λ xs z. refl)
      (unfold contains in refl)

-- chooseActiveDomain that takes the first domain.
abbrev first_of : List Domain → ℕ → Domain
first_of [] i = []
first_of (x ∷ xs) i = x

contains-first_of :
    (pool : List Domain) (i : ℕ) → length pool == 0 ≡ false → contains pool (first_of pool i) ≡ true
unfolding contains
contains-first_of [] i h = ground arith
contains-first_of (x ∷ xs) i h = ground (arith, bytes_equal_refl x)

refreshed-IsPool : IsPool (set_cf_proxy_domains two_domains (c_de ∷ []) [] first_of)
refreshed-IsPool =
    set_cf_proxy_domains-IsPool two_domains (c_de ∷ []) [] first_of (unfold contains in (refl, tt))
      refl contains-first_of

abbrev failed_dial : CfState × Bool
failed_dial = finish_fallback_dial one_dial.state b_de false dns 200

-- In between, another domain answers and this one fails again.
abbrev other_calls : List DialCall
other_calls =
    finishes a_de false success 300 ∷ begins b_de true 400 ∷ finishes b_de false other 500 ∷ []

a_is_not_b : a_de ≡ b_de → ⊥
a_is_not_b e = absurd (ground (arith, ap (λ (d : Domain). bytes_equal d b_de) e))

begin_fallback_dial-cooldown_example :
    (failed_dial.1 ≡ true)
    × ((begin_fallback_dial (call_all failed_dial.0 other_calls) b_de false 60000000000).1 ≡ false)
    × (failures failed_dial.0 true ≡ failures one_dial.state true)
begin_fallback_dial-cooldown_example =
    begin_fallback_dial-cooldown one_dial.state b_de false dns 200 60000000000 other_calls refl
      (unfold begin_fallback_dial contains in omega arith) (omega arith)
      (inl a_is_not_b, (tt, (tt, tt)))

-- aa.com, ab.com, and a line that is none, as they are published.
abbrev body : Bytes
body =
    b'#' ∷ 10 ∷ b'c' ∷ b'c' ∷ b'.' ∷ b'c' ∷ b'o' ∷ b'm' ∷ 10 ∷ b'c' ∷ b'd' ∷ b'.' ∷ b'c' ∷ b'o'
    ∷ b'm' ∷ 10 ∷ b'c' ∷ b'c' ∷ b'c' ∷ b'.' ∷ b'c' ∷ b'o' ∷ b'm' ∷ []

abbrev fetched : List Domain
fetched = take_lines [] (split_by 10 body)

abbrev published_a : Bytes
published_a = b'c' ∷ b'd' ∷ b'.' ∷ b'c' ∷ b'o' ∷ b'm' ∷ []

fetched_cf_proxy_domains-valid_example :
    Distinct fetched
    × (3 ≤ length fetched)
    × (contains fetched a_de && not (is_valid_name a_de) ≡ false)
fetched_cf_proxy_domains-valid_example = fetched_cf_proxy_domains-valid body fetched a_de (
    unfold fetched_cf_proxy_domains take_lines take_line split_by split_first has_prefix has_suffix
      decode_cf_proxy_domain decode_base letters shift_back is_valid_name is_label all_labels is_tld
      is_name_char append_unique_domains append_unique contains normalize_cf_proxy_domain trim
      trim_left trim_right lower to_lower is_space in
    refl)

decode_cf_proxy_domain-encode_base_example :
    decode_cf_proxy_domain published_a ≡ (b'a' ∷ b'b' ∷ []) ++ dot_co_uk
decode_cf_proxy_domain-encode_base_example =
    decode_cf_proxy_domain-encode_base published_a (b'a' ∷ b'b' ∷ []) (
      unfold letters normalize_cf_proxy_domain trim trim_left trim_right lower to_lower is_space in
      refl)

-- The first domain does not answer, the second does.
abbrev two_trials : List FallbackTrial
two_trials =
    record {
      domain = a_de;
      ended_before = false;
      begun = 10;
      dial = dns;
      init_write = success;
      ended_after = false;
      finished = 20;
    }
    ∷ record {
      domain = b_de;
      ended_before = false;
      begun = 30;
      dial = success;
      init_write = success;
      ended_after = false;
      finished = 40;
    }
    ∷ []
