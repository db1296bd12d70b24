-- ===== src/Wifi/Storage.antt =====
-- What nvs_save_sta stores, nvs_load_sta finds.
use dragon_bench.Common.{
  ℕ, subst, ◌<◌, ◌≡◌, ◌≢◌, refl, ap, sym, ◌∙◌, Bool, true, false, Option, none, some, Text, codes,
  is_empty, length,
}
use dragon_bench.Prog.{nvs_open, nvs_get_str, nvs_set_str, nvs_commit, nvs_close}
use dragon_bench.Prog.Protocol.{Follows, Follows-then, Follows-branch, Follows-on_option}
use dragon_bench.Prog.Machine.{Machine, run_on, machine_protocol, Follows-run_on}
use dragon_bench.Wifi.{wifi_nvs_namespace, loaded, save_strings, nvs_save_sta, nvs_load_sta}

-- Strings by namespace and key. A handle is open on the namespace that it was opened with, a string
-- that was set is there, and other keys and other calls of the storage leave it. It is read whole
-- where it and its NUL fit the buffer, and a namespace that holds a string can be opened. What has been
-- committed, and no more, is there after a restart.
pub record Strings {S : Type 0} (p : Machine S) : Type 0 where
  pub restarted : S → S
  pub durable : S → Text → Text → Option Text
  pub stored : S → Text → Text → Option Text
  pub names : S → ℕ → Text
  pub open_names :
      (s : S) (name : Text) (write : Bool) (h : ℕ)
      → (p s (nvs_open name write)).0 ≡ some h
      → names (p s (nvs_open name write)).1 h ≡ name
  pub open_stored :
      (s : S) (name : Text) (write : Bool) (n k : Text)
      → stored (p s (nvs_open name write)).1 n k ≡ stored s n k
  pub opens :
      (s : S) (name k v : Text) → stored s name k ≡ some v → (p s (nvs_open name false)).0 ≢ none
  pub set_names : (s : S) (h : ℕ) (k v : Text) → names (p s (nvs_set_str h k v)).1 h ≡ names s h
  pub set_stored :
      (s : S) (h : ℕ) (k v : Text)
      → (p s (nvs_set_str h k v)).0 ≡ true
      → stored (p s (nvs_set_str h k v)).1 (names s h) k ≡ some v
  pub set_others :
      (s : S) (h : ℕ) (k v n j : Text)
      → j ≢ k
      → stored (p s (nvs_set_str h k v)).1 n j ≡ stored s n j
  pub commit_stored :
      (s : S) (h : ℕ) (n k : Text) → stored (p s (nvs_commit h)).1 n k ≡ stored s n k
  pub commit_durable :
      (s : S) (h : ℕ) (k : Text)
      → (p s (nvs_commit h)).0 ≡ true
      → durable (p s (nvs_commit h)).1 (names s h) k ≡ stored s (names s h) k
  pub close_durable :
      (s : S) (h : ℕ) (n k : Text) → durable (p s (nvs_close h)).1 n k ≡ durable s n k
  pub restart_stored : (s : S) (n k : Text) → stored (restarted s) n k ≡ durable s n k
  pub close_stored : (s : S) (h : ℕ) (n k : Text) → stored (p s (nvs_close h)).1 n k ≡ stored s n k
  pub get_names :
      (s : S) (h : ℕ) (k : Text) (size : ℕ) → names (p s (nvs_get_str h k size)).1 h ≡ names s h
  pub get_stored :
      (s : S) (h : ℕ) (j : Text) (size : ℕ) (n k : Text)
      → stored (p s (nvs_get_str h j size)).1 n k ≡ stored s n k
  pub get_reply :
      (s : S) (h : ℕ) (k v : Text) (size : ℕ)
      → stored s (names s h) k ≡ some v
      → length v < size
      → (p s (nvs_get_str h k size)).0 ≡ some v

keys_differ : codes "ssid" ≢ codes "password"
keys_differ e = cc

module _ {S : Type 0} (p : Machine S) (laws : Strings p) (ssid password : Text) where
  open laws use {stored, durable, names, restarted}

  -- Both strings are there.
  abbrev Kept : S → Type 0
  Kept s =
      (stored s wifi_nvs_namespace (codes "ssid") ≡ some ssid)
      × (stored s wifi_nvs_namespace (codes "password") ≡ some password)

  -- They are, and will be after a restart.
  abbrev Saved : S → Type 0
  Saved s =
      Kept s
      × (durable s wifi_nvs_namespace (codes "ssid") ≡ some ssid)
      × (durable s wifi_nvs_namespace (codes "password") ≡ some password)

  abbrev set_ssid : ℕ → S → S
  set_ssid h s = (p s (nvs_set_str h (codes "ssid") ssid)).1

  abbrev set_password : ℕ → S → S
  set_password h s = (p s (nvs_set_str h (codes "password") password)).1

  strings_set :
      (h : ℕ) (s : S)
      → names s h ≡ wifi_nvs_namespace
      → (p s (nvs_set_str h (codes "ssid") ssid)).0 ≡ true
      → (p (set_ssid h s) (nvs_set_str h (codes "password") password)).0 ≡ true
      → Kept (set_password h (set_ssid h s))
  strings_set h s e first second = (
    laws.set_others (set_ssid h s) h (codes "password") password wifi_nvs_namespace (codes "ssid")
          keys_differ
        ∙ subst (λ n. stored (set_ssid h s) n (codes "ssid") ≡ some ssid) e
            (laws.set_stored s h (codes "ssid") ssid first),
    subst (λ n. stored (set_password h (set_ssid h s)) n (codes "password") ≡ some password)
        (laws.set_names s h (codes "ssid") ssid ∙ e)
        (laws.set_stored (set_ssid h s) h (codes "password") password second),
  )

  committed :
      (h : ℕ) (s : S)
      → names s h ≡ wifi_nvs_namespace
      → (p s (nvs_commit h)).0 ≡ true
      → Kept s
      → Saved (p s (nvs_commit h)).1
  committed h s e done_well k =
      let durable_now : (j : Text)
          → durable (p s (nvs_commit h)).1 wifi_nvs_namespace j ≡ stored s wifi_nvs_namespace j =
        λ j.
          subst (λ n. durable (p s (nvs_commit h)).1 n j ≡ stored s n j) e
            (laws.commit_durable s h j done_well) in
      (
        (laws.commit_stored s h _ _ ∙ k.0, laws.commit_stored s h _ _ ∙ k.1),
        durable_now _ ∙ k.0,
        durable_now _ ∙ k.1,
      )

  closed : (h : ℕ) (s : S) → Saved s → Saved (p s (nvs_close h)).1
  closed h s k = (
    (laws.close_stored s h _ _ ∙ k.0.0, laws.close_stored s h _ _ ∙ k.0.1),
    laws.close_durable s h _ _ ∙ k.1,
    laws.close_durable s h _ _ ∙ k.2,
  )

  save_strings-Saved :
      (h : ℕ) (s : S)
      → names s h ≡ wifi_nvs_namespace
      → Follows (machine_protocol p) (save_strings h ssid password) s (λ ok t. ok ≡ true → Saved t)
  unfolding save_strings
  save_strings-Saved h s e = (
    tt,
    λ r x.
        Follows-branch (machine_protocol p) r _ _ _ (λ ok t. ok ≡ true → Saved t)
          (λ first. (
            tt,
            λ r' x'.
                Follows-branch (machine_protocol p) r' _ _ _ (λ ok t. ok ≡ true → Saved t)
                  (λ second. (
                    tt,
                    λ c y third.
                        committed h (set_password h (set_ssid h s))
                          (laws.set_names (set_ssid h s) h (codes "password") password
                            ∙ laws.set_names s h (codes "ssid") ssid
                            ∙ e)
                          (sym y ∙ third) (strings_set h s e (sym x ∙ first) (sym x' ∙ second)),
                  ))
                  (λ _ d. cc),
          ))
          (λ _ d. cc),
  )

  nvs_save_sta-Saved :
      (s : S)
      → Follows (machine_protocol p) (nvs_save_sta ssid password) s (λ ok t. ok ≡ true → Saved t)
  unfolding nvs_save_sta
  nvs_save_sta-Saved s = (
    tt,
    λ r x.
        Follows-on_option (machine_protocol p) r _ _ _ (λ ok t. ok ≡ true → Saved t) (λ _ d. cc)
          (λ h opened.
            Follows-then (machine_protocol p) (save_strings h ssid password) _ _
              (λ ok t. ok ≡ true → Saved t) (λ ok t. ok ≡ true → Saved t)
              (save_strings-Saved h _
                (laws.open_names s wifi_nvs_namespace true h (sym x ∙ opened)))
              (λ ok t kept. (tt, λ _ _ d. closed h t (kept d)))),
  )

  loaded_whole :
      (first second : Option Text)
      → is_empty ssid ≡ false
      → first ≡ some ssid
      → second ≡ some password
      → loaded first second ≡ some (ssid, password)
  loaded_whole first second e f g = rw (f, g, e) refl

  nvs_load_sta-Kept :
      (s : S)
      → is_empty ssid ≡ false
      → length ssid < 33
      → length password < 65
      → Kept s
      → Follows (machine_protocol p) (nvs_load_sta 33 65) s (λ r t. r ≡ some (ssid, password))
  unfolding nvs_load_sta
  nvs_load_sta-Kept s e l m k = (
    tt,
    λ r x.
        Follows-on_option (machine_protocol p) r _ _ _ (λ r t. r ≡ some (ssid, password))
          (λ missing.
            absurd (laws.opens s wifi_nvs_namespace (codes "ssid") ssid k.0 (sym x ∙ missing)))
          (λ h opened.
            let n = laws.open_names s wifi_nvs_namespace false h (sym x ∙ opened) in
            let t : S = (p s (nvs_open wifi_nvs_namespace false)).1 in
            let u : S = (p t (nvs_get_str h (codes "ssid") 33)).1 in
            (
              tt,
              λ first f. (
                tt,
                λ second g. (
                  tt,
                  λ _ _.
                      loaded_whole first second e
                        (f
                          ∙ laws.get_reply t h (codes "ssid") ssid 33
                              (subst (λ q. stored t q (codes "ssid") ≡ some ssid) (sym n)
                                (laws.open_stored s wifi_nvs_namespace false _ _ ∙ k.0))
                              l)
                        (g
                          ∙ laws.get_reply u h (codes "password") password 65
                              (subst (λ q. stored u q (codes "password") ≡ some password)
                                (sym (laws.get_names t h (codes "ssid") 33 ∙ n))
                                (laws.get_stored t h (codes "ssid") 33 _ _
                                  ∙ laws.open_stored s wifi_nvs_namespace false _ _
                                  ∙ k.1))
                              m),
                ),
              ),
            )),
  )

  -- For every storage of strings by namespace and key: where nvs_save_sta returns true for a name and
  -- a password that fit nvs_load_sta's buffers, the name not empty, nvs_load_sta finds exactly these
  -- two afterwards, and it finds them after a restart. All calls return.
  pub nvs_save_sta-load :
      (s : S)
      → is_empty ssid ≡ false
      → length ssid < 33
      → length password < 65
      → (ok : Bool) × (t : S) × (run_on p s (nvs_save_sta ssid password) ≡ some (ok, t))
        × (ok ≡ true
            → ((u : S) × (run_on p t (nvs_load_sta 33 65) ≡ some (some (ssid, password), u)))
              × ((u : S) × (run_on p (restarted t) (nvs_load_sta 33 65)
                    ≡ some (some (ssid, password), u))))
  nvs_save_sta-load s e l m =
      let saved =
        Follows-run_on p (nvs_save_sta ssid password) s (λ ok t. ok ≡ true → Saved t)
          (nvs_save_sta-Saved s) in
      let loads : (t : S)
          → Kept t
          → (u : S) × (run_on p t (nvs_load_sta 33 65) ≡ some (some (ssid, password), u)) =
        λ t k.
          let found =
            Follows-run_on p (nvs_load_sta 33 65) t (λ r t. r ≡ some (ssid, password))
              (nvs_load_sta-Kept t e l m k) in
          (found.1, found.2 ∙ ap (λ r. some (r, found.1)) found.3) in
      (
        saved.0,
        saved.1,
        saved.2,
        λ d.
            let k : Saved saved.1 = saved.3 d in
            (
              loads saved.1 k.0,
              loads (restarted saved.1)
                  (laws.restart_stored saved.1 _ _ ∙ k.1, laws.restart_stored saved.1 _ _ ∙ k.2),
            ),
      )
