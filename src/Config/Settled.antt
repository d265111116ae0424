-- ===== src/Config/Settled.antt =====
-- The directories of a loaded config are there.
use wing_binlog_go.Prelude.{
  ◌≡◌, refl, ap, sym, subst, ◌∙◌, Bool, true, false, not, ◌&&◌, [], ◌∷◌, ◌++◌, ok, ◌>>=◌, Bytes,
  text, bytes_eq, bytes_eq→eq, if◌then◌else◌, ◌⊎◌, inl, inr, Bool-cases, Option, some, none,
}
use wing_binlog_go.Subscribe.Node.{trim}
use wing_binlog_go.System.Path.{slash, forward_slashes, get_parent}
use wing_binlog_go.System.Path.Strip.{path_parse-branches}
use wing_binlog_go.Config.{
  System, Globals, AppConfig, loaded, app_config_file, decode_file, finish_loaded, file_not_found,
  file_parse, path_exists, mkdir, ensure, settle, settle_pid, finish_config, get_app_config,
}

-- What the code relies on: a directory that was made is there, nothing that is there goes, and what is
-- found with a slash at its end is found without it.
pub record IsLawful {S : Type 0} (sys : System S) : Type 0 where
  pub made :
      (d : Bytes) (s : S) → (sys.mkdir_all d s).1 ≡ true → sys.stat d (sys.mkdir_all d s).0 ≡ true
  pub kept : (d e : Bytes) (s : S) → sys.stat e s ≡ true → sys.stat e (sys.mkdir_all d s).0 ≡ true
  pub slashed :
      (d : Bytes) (s : S)
      → bytes_eq d [] ≡ false
      → sys.stat (d ++ slash ∷ []) s ≡ true
      → sys.stat d s ≡ true

-- A directory with forward slashes that can always be made.
pub record CanBeMade {S : Type 0} (sys : System S) (dir : Bytes) : Type 0 where
  pub forward : forward_slashes dir ≡ dir
  pub succeeds : (s : S) → (sys.mkdir_all dir s).1 ≡ true

-- The pid file of the config, empty or in a directory.
abbrev pub HasDirectory : Bytes → Type 0
HasDirectory file =
    (bytes_eq file [] ≡ true) ⊎ ((dir : Bytes) × (get_parent (forward_slashes file) ≡ ok dir))

decoded :
    (b : Bool) (o : Option AppConfig) {c : AppConfig}
    → b ≡ true
    → o ≡ some c
    → decode_file b o ≡ loaded c
unfolding decode_file
decoded b o there decodes = rw (there, decodes) refl

unread :
    (b : Bool) (o : Option AppConfig)
    → (b ≡ false) ⊎ (o ≡ none)
    → (decode_file b o ≡ file_not_found) ⊎ (decode_file b o ≡ file_parse)
unfolding decode_file
unread true none h = inr refl
unread false none h = inl refl
unread false (some c) h = inl refl
unread true (some c) (inl h) = cc
unread true (some c) (inr h) = cc

module _ {S : Type 0} (sys : System S) where
  -- A directory is there, or its name is empty.
  abbrev pub IsThere : Bytes → S → Type 0
  IsThere dir s = (dir ≡ []) ⊎ (path_exists sys dir s ≡ true)

  -- What a directory of the config settles on: the default, if the config names none or its directory is
  -- not there even after it was to be made, or else the directory with forward slashes and without the
  -- slash at its end.
  unfoldable pub IsNamed : Bytes → Bytes → Bytes → Type 0
  IsNamed default_value dir out =
      ((out ≡ default_value)
        × ((trim dir ≡ [])
            ⊎ ((s : S) × (sys.stat (forward_slashes (trim dir)) (ensure sys (trim dir) s)
                  ≡ false))))
      ⊎ ((out ≡ forward_slashes (trim dir)) ⊎ (out ++ slash ∷ [] ≡ forward_slashes (trim dir)))

  -- The config `d` that is made of the config `c` of the file: the cache directory is settled twice, the
  -- log directory once, and an empty pid file or time zone gets its default.
  unfoldable pub IsFinished : Globals → AppConfig → AppConfig → Type 0
  IsFinished g c d =
      ((once : Bytes) × IsNamed g.default_cache c.cache_path once
        × IsNamed g.default_cache once d.cache_path)
      × IsNamed g.default_log c.log_path d.log_path
      × (d.pid_file ≡ (if bytes_eq c.pid_file [] then g.pid else forward_slashes c.pid_file))
      × (d.time_zone ≡ (if bytes_eq c.time_zone [] then text "Local" else c.time_zone))
      × (d.log_level ≡ c.log_level)
      × (d.pprof_listen ≡ c.pprof_listen)
      × (d.control_listen ≡ c.control_listen)

module _ {S : Type 0} (sys : System S) (law : IsLawful sys) where
  found-forward :
      (d : Bytes) (s : S) → forward_slashes d ≡ d → sys.stat d s ≡ true → path_exists sys d s ≡ true
  unfolding path_exists
  found-forward d s e h = ap (λ x. sys.stat x s) e ∙ h

  mkdir-keeps :
      (d e : Bytes) (s : S) → path_exists sys e s ≡ true → path_exists sys e (mkdir sys d s) ≡ true
  unfolding mkdir path_exists
  mkdir-keeps d e s h = elim (Bool-cases (sys.stat (forward_slashes d) s)) [
    | inl there ↦ rw there h
    | inr missing ↦ rw missing (law.kept d (forward_slashes e) s h)
  ]

  ensure-keeps :
      (d e : Bytes) (s : S) → path_exists sys e s ≡ true → path_exists sys e (ensure sys d s) ≡ true
  unfolding ensure
  ensure-keeps d e s h = elim (Bool-cases (not (bytes_eq d []) && not (path_exists sys d s))) [
    | inl makes ↦ rw makes (mkdir-keeps d e s h)
    | inr stays ↦ rw stays h
  ]

  ensure-makes : (d : Bytes) (s : S) → CanBeMade sys d → IsThere sys d (ensure sys d s)
  unfolding ensure mkdir path_exists
  ensure-makes d s can = elim (Bool-cases (bytes_eq d [])) [
    | inl empty ↦ inl (bytes_eq→eq d [] empty)
    | inr named ↦ elim (Bool-cases (sys.stat (forward_slashes d) s)) [
      | inl there ↦ inr (rw (named, there) there)
      | inr missing ↦ inr (
          rw (named, missing)
            (found-forward d (sys.mkdir_all d s).0 can.forward (law.made d s (can.succeeds s))))
    ]
  ]

  stripped-IsThere :
      (dir out : Bytes) (s : S)
      → sys.stat (forward_slashes dir) s ≡ true
      → forward_slashes out ≡ out
      → (out ≡ forward_slashes dir) ⊎ (out ++ slash ∷ [] ≡ forward_slashes dir)
      → IsThere sys out s
  unfolding path_exists
  stripped-IsThere dir out s there front (inl same) =
      inr (found-forward out s front (ap (λ x. sys.stat x s) same ∙ there))
  stripped-IsThere dir out s there front (inr e) = elim (Bool-cases (bytes_eq out [])) [
    | inl empty ↦ inl (bytes_eq→eq out [] empty)
    | inr named ↦
        inr (found-forward out s front (law.slashed out s named (ap (λ x. sys.stat x s) e ∙ there)))
  ]

  IsThere-keeps :
      (f : S → S) (e : Bytes) (s : S)
      → (path_exists sys e s ≡ true → path_exists sys e (f s) ≡ true)
      → IsThere sys e s
      → IsThere sys e (f s)
  IsThere-keeps f e s keep (inl empty) = inl empty
  IsThere-keeps f e s keep (inr there) = inr (keep there)

  -- Whatever is there in the first state is there in the second.
  abbrev Keeps : S → S → Type 0
  Keeps s t = (e : Bytes) → path_exists sys e s ≡ true → path_exists sys e t ≡ true

  -- A directory of the config settles, without a panic, on one that is there, or on the empty name; and
  -- nothing that was there goes.
  settle-IsThere :
      (default_value dir : Bytes) (s : S)
      → CanBeMade sys default_value
      → (out : Bytes) × (t : S) × (settle sys default_value dir s ≡ ok (out, t))
        × IsThere sys out t
        × Keeps s t
        × IsNamed sys default_value dir out
  unfolding settle IsNamed
  settle-IsThere default_value dir s can =
      let made = ensure sys (trim dir) s in
      let (out, e, r) = path_parse-branches (λ d. sys.stat d made) (trim dir) default_value in
      (
        out,
        ensure sys out made,
        ap (λ o. o >>= λ x. ok (x, ensure sys x made)) e,
        elim r [
          | inl (same, _) ↦
              subst (λ d. IsThere sys d (ensure sys d made)) (sym same)
                (ensure-makes default_value made can)
          | inr (there, front, how) ↦
              IsThere-keeps (ensure sys out) out made (ensure-keeps out out made)
                (stripped-IsThere (trim dir) out made there front how)
        ],
        λ f h. ensure-keeps out f made (ensure-keeps (trim dir) f s h),
        elim r [
          | inl (same, inl empty) ↦ inl (same, inl empty)
          | inl (same, inr missing) ↦ inl (same, inr (s, missing))
          | inr (there, front, how) ↦ inr how
        ],
      )

  settle_pid-Keeps :
      (default_value file : Bytes) (s : S)
      → HasDirectory file
      → (out : Bytes) × (t : S) × (settle_pid sys default_value file s ≡ ok (out, t))
        × Keeps s t
        × (out ≡ (if bytes_eq file [] then default_value else forward_slashes file))
  unfolding settle_pid
  settle_pid-Keeps default_value file s (inl empty) =
      (default_value, s, rw empty refl, λ e h. h, rw empty refl)
  settle_pid-Keeps default_value file s (inr (dir, parent)) = elim (Bool-cases (bytes_eq file [])) [
    | inl empty ↦ (default_value, s, rw empty refl, λ e h. h, rw empty refl)
    | inr named ↦ (
      forward_slashes file,
      mkdir sys dir s,
      rw (named, parent) refl,
      λ e h. mkdir-keeps dir e s h,
      rw named refl,
    )
  ]

  -- A config that was decoded is finished without a panic, and its cache and log directories are there,
  -- or their names are empty. The defaults can be made, and the pid file is in a directory.
  pub finish_config-IsThere :
      (g : Globals) (c : AppConfig) (s : S)
      → CanBeMade sys g.default_cache
      → CanBeMade sys g.default_log
      → HasDirectory c.pid_file
      → (d : AppConfig) × (t : S) × (finish_config sys g c s ≡ ok (d, t))
        × IsThere sys d.cache_path t
        × IsThere sys d.log_path t
        × IsFinished sys g c d
  unfolding finish_config IsFinished
  finish_config-IsThere g c s can_cache can_log has =
      let (once, a, e1, there1, keep1, named1) =
        settle-IsThere g.default_cache c.cache_path s can_cache in
      let (cache, b, e2, there2, keep2, named2) = settle-IsThere g.default_cache once a can_cache in
      let (log, d, e3, there3, keep3, named3) = settle-IsThere g.default_log c.log_path b can_log in
      let (file, t, e4, keep4, named4) = settle_pid-Keeps g.pid c.pid_file d has in
      (
        record c {
          time_zone = if bytes_eq c.time_zone [] then text "Local" else c.time_zone;
          cache_path = cache;
          log_path = log;
          pid_file = file;
        },
        t,
        rw (e1, e2, e3, e4) refl,
        IsThere-keeps (λ _. t) cache b (λ h. keep4 cache (keep3 cache h)) there2,
        IsThere-keeps (λ _. t) log d (keep4 log) there3,
        ((once, named1, named2), named3, named4, refl, refl, refl, refl),
      )

module _ {S : Type 0} (sys : System S) (g : Globals) (s : S) where
  pub get_app_config-loaded :
      (c d : AppConfig) (t : S)
      → sys.stat (app_config_file g) s ≡ true
      → sys.decode_app (app_config_file g) s ≡ some c
      → finish_config sys g c s ≡ ok (d, t)
      → get_app_config sys g s ≡ ok (loaded d, t)
  unfolding get_app_config finish_loaded
  get_app_config-loaded c d t there decodes e =
      ap (finish_loaded sys g s) (decoded _ _ there decodes)
      ∙ ap (λ o. o >>= λ (x, y). ok (loaded x, y)) e

  pub get_app_config-unread :
      (sys.stat (app_config_file g) s ≡ false) ⊎ (sys.decode_app (app_config_file g) s ≡ none)
      → (get_app_config sys g s ≡ ok (file_not_found, s))
        ⊎ (get_app_config sys g s ≡ ok (file_parse, s))
  unfolding get_app_config finish_loaded
  get_app_config-unread wrong = elim (unread _ _ wrong) [
    | inl e ↦ inl (ap (finish_loaded sys g s) e)
    | inr e ↦ inr (ap (finish_loaded sys g s) e)
  ]
