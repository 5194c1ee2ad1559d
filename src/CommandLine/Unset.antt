-- ===== src/CommandLine/Unset.antt =====
-- The settings of an option that was not given are those handed over, after each step of the loop.
use bacnet_profile_example_b.Base.{
  ℕ, zero, suc, ◌<◌, ◌≡◌, refl, subst, ap, sym, ◌∙◌, Bool, true, false, List, [], ◌∷◌, Option, none,
  some, ◌⊎◌, inl, inr, arith, by_test, length, length-set, get_elem?, set, get_or,
}
use bacnet_profile_example_b.Base.Text.{codes, same_text, same_text_sound}
use bacnet_profile_example_b.Options.{DataLink, CommandLineOptions, same_link}
use bacnet_profile_example_b.CommandLine.{
  Platform, data_link_options, known_index, Parsed, parse_data_link, set_baud_rate,
}
use bacnet_profile_example_b.CommandLine.Parse.{set_data_link_option, set_known, apply_option}
use bacnet_profile_example_b.CommandLine.Leaves.{
  Leaves, number_or_fail-Leaves, hub_uri_or_fail-Leaves, set_baud_rate-Leaves, set_data_link-Leaves,
}

-- The settings that belong to one data link alone.
abbrev pub settings : DataLink → CommandLineOptions → List (List ℕ)
settings DataLink.ipv4 o = []
settings DataLink.ipv6 o = (o.ipv6_interface_index ∷ []) ∷ []
settings DataLink.mstp o =
    o.mstp_port_name
    ∷ (o.mstp_baud_rate ∷ o.mstp_mac_address ∷ o.mstp_max_master ∷ o.mstp_max_info_frames ∷ [])
    ∷ []
settings DataLink.sc o =
    o.sc_primary_hub_uri ∷ o.sc_failover_hub_uri ∷ o.sc_certificate_directory ∷ o.import_cari_zip
    ∷ []

abbrev pub belongs : DataLink → ℕ → Bool
belongs l j = elim (get_elem? data_link_options j) [
  | none ↦ false
  | some o ↦ same_link o.data_link l
]

-- No option of the data link was given.
abbrev pub NoneGiven : DataLink → List Bool → Type 0
NoneGiven l given = (j : ℕ) → belongs l j ≡ true → get_or given j false ≡ false

-- What was not given is as it was handed over.
pub record IsUnset (options : CommandLineOptions) (p : Parsed) : Type 0 where
  pub ten : length p.given ≡ 10
  pub others : (l : DataLink) → NoneGiven l p.given → settings l p.options ≡ settings l options
  pub port : p.port_given ≡ false → p.options.udp_port ≡ options.udp_port

get_or-set-true :
    (given : List Bool) (i j : ℕ)
    → get_or (set given i true) j false ≡ false
    → get_or given j false ≡ false
get_or-set-true [] i j e = e
get_or-set-true (b ∷ bs) zero zero e = absurd (ground (arith, e))
get_or-set-true (b ∷ bs) zero (suc j) e = e
get_or-set-true (b ∷ bs) (suc i) zero e = e
get_or-set-true (b ∷ bs) (suc i) (suc j) e = get_or-set-true bs i j e

get_or-set_self :
    (given : List Bool) (i : ℕ) → i < length given → get_or (set given i true) i false ≡ true
get_or-set_self [] i h = elim h [ ]
get_or-set_self (b ∷ bs) zero h = refl
get_or-set_self (b ∷ bs) (suc i) h = get_or-set_self bs i (ground (arith, h))

-- An option of `m`, at index `k` of the table, is recorded, and only settings of `m` change.
changed :
    (m : DataLink) (k i : ℕ) (options : CommandLineOptions) (p : Parsed) (o : CommandLineOptions)
    → i ≡ k
    → belongs m k ≡ true
    → k < 10
    → ((l : DataLink) → (l ≡ m) ⊎ (settings l o ≡ settings l p.options))
    → o.udp_port ≡ p.options.udp_port
    → IsUnset options p
    → IsUnset options (record p { options = o; given = set p.given i true })
changed m k i options p o same mine bound kept port h = record {
  ten = length-set p.given i true ∙ h.ten;
  others = λ l none_given. elim (kept l) [
    | inr e ↦ e ∙ h.others l λ j b. get_or-set-true p.given i j (none_given j b)
    | inl e ↦
        let given = none_given i (
          subst (λ n. belongs l n ≡ true) (sym same)
            (subst (λ d. belongs d k ≡ true) (sym e) mine)) in
        absurd (
          ground
            (arith, sym given ∙ get_or-set_self p.given i (ground (arith, same, bound, h.ten))))
  ];
  port = λ e. port ∙ h.port e;
}

-- The index that was found for an option with this text.
index_of :
    (option text : List ℕ) (i k : ℕ)
    → known_index data_link_options 0 option ≡ some i
    → known_index data_link_options 0 text ≡ some k
    → same_text option text ≡ true
    → i ≡ k
index_of option text i k found known same =
    let e =
      sym found ∙ ap (known_index data_link_options 0) (same_text_sound option text same) ∙ known in
    ground (arith, e)

only_ipv6 :
    (o p : CommandLineOptions)
    → settings DataLink.mstp o ≡ settings DataLink.mstp p
    → settings DataLink.sc o ≡ settings DataLink.sc p
    → (l : DataLink) → (l ≡ DataLink.ipv6) ⊎ (settings l o ≡ settings l p)
only_ipv6 o p e f DataLink.ipv4 = inr refl
only_ipv6 o p e f DataLink.ipv6 = inl refl
only_ipv6 o p e f DataLink.mstp = inr e
only_ipv6 o p e f DataLink.sc = inr f

only_mstp :
    (o p : CommandLineOptions)
    → settings DataLink.ipv6 o ≡ settings DataLink.ipv6 p
    → settings DataLink.sc o ≡ settings DataLink.sc p
    → (l : DataLink) → (l ≡ DataLink.mstp) ⊎ (settings l o ≡ settings l p)
only_mstp o p e f DataLink.ipv4 = inr refl
only_mstp o p e f DataLink.ipv6 = inr e
only_mstp o p e f DataLink.mstp = inl refl
only_mstp o p e f DataLink.sc = inr f

only_sc :
    (o p : CommandLineOptions)
    → settings DataLink.ipv6 o ≡ settings DataLink.ipv6 p
    → settings DataLink.mstp o ≡ settings DataLink.mstp p
    → (l : DataLink) → (l ≡ DataLink.sc) ⊎ (settings l o ≡ settings l p)
only_sc o p e f DataLink.ipv4 = inr refl
only_sc o p e f DataLink.ipv6 = inr e
only_sc o p e f DataLink.mstp = inr f
only_sc o p e f DataLink.sc = inl refl

unchanged :
    (i : ℕ) (options : CommandLineOptions) (p : Parsed)
    → IsUnset options p
    → IsUnset options (record p { given = set p.given i true })
unchanged i options p h = record {
  ten = length-set p.given i true ∙ h.ten;
  others = λ l none_given. h.others l λ j b. get_or-set-true p.given i j (none_given j b);
  port = h.port;
}

module _ (options : CommandLineOptions) (p : Parsed) (h : IsUnset options p) where
  on_ipv6 :
      (k i : ℕ) (o : CommandLineOptions)
      → i ≡ k
      → belongs DataLink.ipv6 k ≡ true
      → k < 10
      → settings DataLink.mstp o ≡ settings DataLink.mstp p.options
      → settings DataLink.sc o ≡ settings DataLink.sc p.options
      → o.udp_port ≡ p.options.udp_port
      → IsUnset options (record p { options = o; given = set p.given i true })
  on_ipv6 k i o same mine bound e f port =
      changed DataLink.ipv6 k i options p o same mine bound (only_ipv6 o p.options e f) port h

  on_mstp :
      (k i : ℕ) (o : CommandLineOptions)
      → i ≡ k
      → belongs DataLink.mstp k ≡ true
      → k < 10
      → settings DataLink.ipv6 o ≡ settings DataLink.ipv6 p.options
      → settings DataLink.sc o ≡ settings DataLink.sc p.options
      → o.udp_port ≡ p.options.udp_port
      → IsUnset options (record p { options = o; given = set p.given i true })
  on_mstp k i o same mine bound e f port =
      changed DataLink.mstp k i options p o same mine bound (only_mstp o p.options e f) port h

  on_sc :
      (k i : ℕ) (o : CommandLineOptions)
      → i ≡ k
      → belongs DataLink.sc k ≡ true
      → k < 10
      → settings DataLink.ipv6 o ≡ settings DataLink.ipv6 p.options
      → settings DataLink.mstp o ≡ settings DataLink.mstp p.options
      → o.udp_port ≡ p.options.udp_port
      → IsUnset options (record p { options = o; given = set p.given i true })
  on_sc k i o same mine bound e f port =
      changed DataLink.sc k i options p o same mine bound (only_sc o p.options e f) port h

  set_data_link_option-IsUnset :
      (pf : Platform) (option value : List ℕ) (i : ℕ)
      → known_index data_link_options 0 option ≡ some i
      → Leaves
          (IsUnset options)
          (set_data_link_option pf option value (record p { given = set p.given i true }))
  unfolding set_data_link_option known_index
  set_data_link_option-IsUnset pf option value i found =
      let Q = IsUnset options in
      let P = Leaves Q in
      let recorded = record p { given = set p.given i true } in
      by_test P (same_text option (codes "--interface")) _ _
        (λ e. number_or_fail-Leaves Q pf value 1 4294967295 _ λ n low high.
          on_ipv6 0 i _ (index_of option (codes "--interface") i 0 found refl e) refl (omega arith)
            refl refl refl)
        λ e.
          by_test P (same_text option (codes "--mstp-port")) _ _
            (λ e.
              on_mstp 1 i _ (index_of option (codes "--mstp-port") i 1 found refl e) refl
                (omega arith) refl refl refl)
            λ e.
              by_test P (same_text option (codes "--mstp-baud")) _ _
                (λ e.
                  number_or_fail-Leaves Q pf value 1 4294967295 (set_baud_rate pf value recorded)
                    λ n low high. set_baud_rate-Leaves Q pf value recorded n λ rate.
                      on_mstp 2 i _ (index_of option (codes "--mstp-baud") i 2 found refl e) refl
                        (omega arith) refl refl refl)
                λ e.
                  by_test P (same_text option (codes "--mstp-mac")) _ _
                    (λ e. number_or_fail-Leaves Q pf value 0 127 _ λ n low high.
                      on_mstp 3 i _ (index_of option (codes "--mstp-mac") i 3 found refl e) refl
                        (omega arith) refl refl refl)
                    λ e.
                      by_test P (same_text option (codes "--mstp-max-master")) _ _
                        (λ e. number_or_fail-Leaves Q pf value 1 127 _ λ n low high.
                          on_mstp 4 i _
                            (index_of option (codes "--mstp-max-master") i 4 found refl e) refl
                            (omega arith) refl refl refl)
                        λ e.
                          by_test P (same_text option (codes "--mstp-max-info-frames")) _ _
                            (λ e. number_or_fail-Leaves Q pf value 1 255 _ λ n low high.
                              on_mstp 5 i _
                                (index_of option (codes "--mstp-max-info-frames") i 5 found refl e)
                                refl (omega arith) refl refl refl)
                            λ e.
                              by_test P (same_text option (codes "--sc-hub")) _ _
                                (λ e. hub_uri_or_fail-Leaves Q option value _ λ uri.
                                  on_sc 6 i _ (index_of option (codes "--sc-hub") i 6 found refl e)
                                    refl (omega arith) refl refl refl)
                                λ e.
                                  by_test P (same_text option (codes "--sc-failover-hub")) _ _
                                    (λ e. hub_uri_or_fail-Leaves Q option value _ λ uri.
                                      on_sc 7 i _
                                        (index_of option (codes "--sc-failover-hub") i 7 found refl
                                          e)
                                        refl (omega arith) refl refl refl)
                                    λ e.
                                      by_test P (same_text option (codes "--sc-cert-dir")) _ _
                                        (λ e.
                                          on_sc 8 i _
                                            (index_of option (codes "--sc-cert-dir") i 8 found refl
                                              e)
                                            refl (omega arith) refl refl refl)
                                        λ e.
                                          by_test P (same_text option (codes "--import-cari")) _ _
                                            (λ e.
                                              on_sc 9 i _
                                                (index_of option (codes "--import-cari") i 9 found
                                                  refl e)
                                                refl (omega arith) refl refl refl)
                                            λ e. unchanged i options p h

set_known-IsUnset :
    (pf : Platform) (options : CommandLineOptions) (option value : List ℕ) (p : Parsed)
    → (i : Option ℕ) → known_index data_link_options 0 option ≡ i
    → IsUnset options p
    → Leaves (IsUnset options) (set_known pf option value p i)
unfolding set_known
set_known-IsUnset pf options option value p none found h = tt
set_known-IsUnset pf options option value p (some i) found h =
    set_data_link_option-IsUnset options p h pf option value i found

-- The settings of no data link change.
general :
    (options : CommandLineOptions) (p : Parsed) (o : CommandLineOptions) (port_given : Bool)
    → settings DataLink.ipv6 o ≡ settings DataLink.ipv6 p.options
    → settings DataLink.mstp o ≡ settings DataLink.mstp p.options
    → settings DataLink.sc o ≡ settings DataLink.sc p.options
    → (port_given ≡ false → o.udp_port ≡ options.udp_port)
    → IsUnset options p
    → IsUnset options (record p { options = o; port_given = port_given })
general options p o port_given e f g port h = record {
  ten = h.ten;
  others = λ l none_given. kept l ∙ h.others l none_given;
  port = port;
}
  where
    kept : (l : DataLink) → settings l o ≡ settings l p.options
    kept DataLink.ipv4 = refl
    kept DataLink.ipv6 = e
    kept DataLink.mstp = f
    kept DataLink.sc = g

pub apply_option-IsUnset :
    (pf : Platform) (options : CommandLineOptions) (option value : List ℕ) (p : Parsed)
    → IsUnset options p
    → Leaves (IsUnset options) (apply_option pf option value p)
unfolding apply_option
apply_option-IsUnset pf options option value p h =
    let Q = IsUnset options in
    let P = Leaves Q in
    by_test P (same_text option (codes "--datalink")) _ _
      (λ e. set_data_link-Leaves Q value p (parse_data_link value) λ link.
        general options p (record p.options { data_link = link }) p.port_given refl refl refl h.port
          h)
      λ e.
        by_test P (same_text option (codes "--deviceID")) _ _
          (λ e. number_or_fail-Leaves Q pf value 0 4194302 _ λ n low high.
            general options p (record p.options { device_instance = n }) p.port_given refl refl refl
              h.port h)
          λ e.
            by_test P (same_text option (codes "--deviceName")) _ _ (λ e. h)
              λ e.
                by_test P (same_text option (codes "--port")) _ _
                  (λ e. number_or_fail-Leaves Q pf value 1 65535 _ λ n low high.
                    general options p (record p.options { udp_port = n }) true refl refl refl
                      (λ given. absurd (ground (arith, given))) h)
                  λ e.
                    set_known-IsUnset pf options option value p
                      (known_index data_link_options 0 option) refl h
