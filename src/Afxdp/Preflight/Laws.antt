-- ===== src/Afxdp/Preflight/Laws.antt =====
-- What the preflight checks let pass.
use afxdp_path_manager.Common.{
  ℕ, ◌+◌, ◌*◌, ◌≤◌, ◌<◌, ℤ, pos, ◌<ℤ◌, leb_ℤ, ap, ◌≡◌, ◌≢◌, ◌↔◌, ◌⊎◌, inl, inr, refl, true, false,
  List, [], ◌∷◌, ◌++◌, Option, none, some, arith, Bool-cases, ◌==◌, if◌then◌else◌, subst,
}
use afxdp_path_manager.Afxdp.Config.{umem_hugepage_aligned}
use afxdp_path_manager.Afxdp.Args.{Config, native, skb, bytes}
use afxdp_path_manager.Afxdp.Preflight.{
  Machine, is_readable, same_text, native_xdp_drivers, is_listed, basename_from, basename,
  queue_count, driver_ok, queue_ok, kernel_ok, preflight_checks, hugepages_needed,
}

-- A text stands in a table.
pub data In (t : List ℕ) : List (List ℕ) → Type 0 where
  here : {ts : List (List ℕ)} → In t (t ∷ ts)
  there : {u : List ℕ} {ts : List (List ℕ)} → In t ts → In t (u ∷ ts)

same_text→≡ : (t u : List ℕ) → same_text t u ≡ true → t ≡ u
unfolding same_text
same_text→≡ [] [] h = refl
same_text→≡ [] (d ∷ ds) h = absurd (cc h)
same_text→≡ (c ∷ cs) [] h = absurd (cc h)
same_text→≡ (c ∷ cs) (d ∷ ds) h = ground (arith, same_text→≡ cs ds)

same_text_refl : (t : List ℕ) → same_text t t ≡ true
unfolding same_text
same_text_refl [] = refl
same_text_refl (c ∷ cs) = ground (arith, same_text_refl cs)

is_listed→In : (t : List ℕ) (ts : List (List ℕ)) → is_listed t ts ≡ true → In t ts
unfolding is_listed
is_listed→In t [] h = absurd (cc h)
is_listed→In t (u ∷ ts) h = elim (Bool-cases (same_text t u)) [
  | inl e ↦ subst (λ v. In t (v ∷ ts)) (same_text→≡ t u e) here
  | inr e ↦ there (is_listed→In t ts (ground arith))
]

In→is_listed : (t : List ℕ) (ts : List (List ℕ)) → In t ts → is_listed t ts ≡ true
unfolding is_listed
In→is_listed t [] i = elim i [ ]
In→is_listed t (t' ∷ ts) here = rw (same_text_refl t) refl
In→is_listed t (u ∷ ts) (there i) = ground (arith, In→is_listed t ts i)

abbrev pub slash : ℕ
slash = b'/'

abbrev pub NoSlash : List ℕ → Type 0
NoSlash [] = Unit {0}
NoSlash (c ∷ cs) = (c ≢ slash) × NoSlash cs

basename_from-plain : (best name : List ℕ) → NoSlash name → basename_from best name ≡ best
unfolding basename_from
basename_from-plain best [] h = refl
basename_from-plain best (c ∷ cs) h =
    let other : (c == slash) ≡ false = ground (arith, h.0) in
    rw other (basename_from-plain best cs h.1)

basename_from-append :
    (dir best name : List ℕ) → NoSlash name → basename_from best (dir ++ slash ∷ name) ≡ name
unfolding basename_from
basename_from-append [] best name h = basename_from-plain name name h
basename_from-append (c ∷ cs) best name h =
    basename_from-append cs (if c == slash then cs ++ slash ∷ name else best) name h

-- The driver's name is what stands behind the last slash of the link.
pub basename-append : (dir name : List ℕ) → NoSlash name → basename (dir ++ slash ∷ name) ≡ name
unfolding basename
basename-append dir name h = basename_from-append dir (dir ++ slash ∷ name) name h

-- The link names a driver of the table.
pub record HasDriver (driver : Option (List ℕ)) : Type 0 where
  pub link : List ℕ
  pub found : driver ≡ some link
  pub link-ne-nil : link ≢ []
  pub listed : In (basename link) native_xdp_drivers

driver_ok→HasDriver : (d : Option (List ℕ)) → driver_ok d ≡ true → HasDriver d
unfolding driver_ok
driver_ok→HasDriver none h = absurd (cc h)
driver_ok→HasDriver (some []) h = absurd (cc h)
driver_ok→HasDriver (some (c ∷ cs)) h = record {
  link = c ∷ cs;
  found = refl;
  link-ne-nil = λ e. absurd (cc e);
  listed = is_listed→In (basename (c ∷ cs)) native_xdp_drivers h;
}

HasDriver→driver_ok : (d : Option (List ℕ)) → HasDriver d → driver_ok d ≡ true
unfolding driver_ok
HasDriver→driver_ok none h = absurd (cc h.found)
HasDriver→driver_ok (some []) h = absurd (h.link-ne-nil (ground (arith, h.found)))
HasDriver→driver_ok (some (c ∷ cs)) h =
    let same : h.link ≡ c ∷ cs = ground (arith, h.found) in
    In→is_listed (basename (c ∷ cs)) native_xdp_drivers (rw same at h.listed)

-- What the checks ask for: the state of the interface can be read; native mode has a driver of the
-- table; the queue is one of the interface's, if these can be counted; the program file can be read;
-- the kernel is 4.18 or later; and zero copy stands neither with copy mode nor with generic mode.
pub record IsAcceptable (m : Machine) (cfg : Config) : Type 0 where
  pub interface : is_readable m.operstate ≡ true
  pub driver : (cfg.attach_mode ≢ native) ⊎ HasDriver m.driver
  pub queue : (queue_count m ≡ 0) ⊎ (cfg.xsk_if_queue <ℤ pos (queue_count m))
  pub obj : m.obj_readable ≡ true
  pub kernel : (4 < m.kernel_major) ⊎ ((m.kernel_major ≡ 4) × (18 ≤ m.kernel_minor))
  pub modes : (cfg.bind_zerocopy ≡ false) ⊎ ((cfg.bind_copy ≡ false) × (cfg.attach_mode ≢ skb))

queue_ok_iff :
    (count : ℕ) (queue : ℤ) → (queue_ok count queue ≡ true) ↔ ((count ≡ 0) ⊎ (queue <ℤ pos count))
unfolding queue_ok
queue_ok_iff count queue = (λ h. ground arith, λ h. ground arith)

kernel_ok_iff :
    (major minor : ℕ)
    → (kernel_ok major minor ≡ true) ↔ ((4 < major) ⊎ ((major ≡ 4) × (18 ≤ minor)))
unfolding kernel_ok
kernel_ok_iff major minor = (λ h. ground arith, λ h. ground arith)

-- The tests that the checks make, as they are made.
record Passes (m : Machine) (cfg : Config) : Type 0 where
  interface : is_readable m.operstate ≡ true
  driver : (cfg.attach_mode ≢ native) ⊎ (driver_ok m.driver ≡ true)
  queue : queue_ok (queue_count m) cfg.xsk_if_queue ≡ true
  obj : m.obj_readable ≡ true
  kernel : kernel_ok m.kernel_major m.kernel_minor ≡ true
  modes : (cfg.bind_zerocopy ≡ false) ⊎ ((cfg.bind_copy ≡ false) × (cfg.attach_mode ≢ skb))

preflight→Passes : (m : Machine) (cfg : Config) → preflight_checks m cfg ≡ none → Passes m cfg
unfolding preflight_checks
preflight→Passes m cfg h = ground arith

Passes→preflight : (m : Machine) (cfg : Config) → Passes m cfg → preflight_checks m cfg ≡ none
unfolding preflight_checks
Passes→preflight m cfg p = ground arith

preflight-IsAcceptable :
    (m : Machine) (cfg : Config) → (preflight_checks m cfg ≡ none) ↔ IsAcceptable m cfg
preflight-IsAcceptable m cfg = (
  λ h.
      let p = preflight→Passes m cfg h in
      record {
        interface = p.interface;
        driver = elim p.driver [ inl a ↦ inl a | inr b ↦ inr (driver_ok→HasDriver m.driver b) ];
        queue = (queue_ok_iff _ _).0 p.queue;
        obj = p.obj;
        kernel = (kernel_ok_iff _ _).0 p.kernel;
        modes = p.modes;
      },
  λ a. Passes→preflight m cfg (record {
    interface = a.interface;
    driver = elim a.driver [ inl d ↦ inl d | inr d ↦ inr (HasDriver→driver_ok m.driver d) ];
    queue = (queue_ok_iff _ _).1 a.queue;
    obj = a.obj;
    kernel = (kernel_ok_iff _ _).1 a.kernel;
    modes = a.modes;
  }),
)

-- What the comments and the messages of the function say: the interface must be up, the queue is one of those from 0
-- on, and zero copy requires native mode.
pub record IsDocumented (m : Machine) (cfg : Config) : Type 0 where
  pub interface : m.operstate ≡ some (bytes "up")
  pub driver : (cfg.attach_mode ≢ native) ⊎ HasDriver m.driver
  pub queue :
      (queue_count m ≡ 0)
      ⊎ ((leb_ℤ (pos 0) cfg.xsk_if_queue ≡ true) × (cfg.xsk_if_queue <ℤ pos (queue_count m)))
  pub obj : m.obj_readable ≡ true
  pub kernel : (4 < m.kernel_major) ⊎ ((m.kernel_major ≡ 4) × (18 ≤ m.kernel_minor))
  pub modes : (cfg.bind_zerocopy ≡ false) ⊎ ((cfg.bind_copy ≡ false) × (cfg.attach_mode ≡ native))

-- What of that is not tested
pub record IsUntested (m : Machine) (cfg : Config) : Type 0 where
  pub interface : m.operstate ≡ some (bytes "up")
  pub queue : (queue_count m ≡ 0) ⊎ (leb_ℤ (pos 0) cfg.xsk_if_queue ≡ true)
  pub mode : (cfg.bind_zerocopy ≡ false) ⊎ (cfg.attach_mode ≡ native)

IsDocumented→IsAcceptable : (m : Machine) (cfg : Config) → IsDocumented m cfg → IsAcceptable m cfg
IsDocumented→IsAcceptable m cfg d = record {
  interface = ap is_readable d.interface;
  driver = d.driver;
  queue = elim d.queue [ inl z ↦ inl z | inr (low, high) ↦ inr high ];
  obj = d.obj;
  kernel = d.kernel;
  modes = elim d.modes [ inl off ↦ inl off | inr (one, is) ↦ inr (one, λ e. absurd (cc (e, is))) ];
}

IsDocumented→IsUntested : (m : Machine) (cfg : Config) → IsDocumented m cfg → IsUntested m cfg
IsDocumented→IsUntested m cfg d = record {
  interface = d.interface;
  queue = elim d.queue [ inl z ↦ inl z | inr (low, high) ↦ inr low ];
  mode = elim d.modes [ inl off ↦ inl off | inr (one, is) ↦ inr is ];
}

IsAcceptable-IsDocumented :
    (m : Machine) (cfg : Config) → IsAcceptable m cfg → IsUntested m cfg → IsDocumented m cfg
IsAcceptable-IsDocumented m cfg a u = record {
  interface = u.interface;
  driver = a.driver;
  queue = elim a.queue [
    | inl z ↦ inl z
    | inr high ↦ elim u.queue [ inl z ↦ inl z | inr low ↦ inr (low, high) ]
  ];
  obj = a.obj;
  kernel = a.kernel;
  modes = elim a.modes [
    | inl off ↦ inl off
    | inr (one, other) ↦ elim u.mode [ inl off ↦ inl off | inr is ↦ inr (one, is) ]
  ];
}

-- afxdp_preflight_checks passes exactly if the interface's state can be read, native mode has a driver of the table,
-- the queue is less than the number of queues where these can be counted, the program file can be read, the kernel
-- is 4.18 or later, and zero copy stands neither with copy mode nor with generic mode. And what the comments and
-- messages of the function ask for holds exactly if it passes, the state is "up", the queue is not negative where
-- queues can be counted, and zero copy stands with native mode only: these three are not tested.
pub preflight_iff :
    (m : Machine) (cfg : Config)
    → ((preflight_checks m cfg ≡ none) ↔ IsAcceptable m cfg)
      × (IsDocumented m cfg ↔ ((preflight_checks m cfg ≡ none) × IsUntested m cfg))
preflight_iff m cfg =
    let passes = preflight-IsAcceptable m cfg in
    (
      passes,
      (
        λ d. (passes.1 (IsDocumented→IsAcceptable m cfg d), IsDocumented→IsUntested m cfg d),
        λ (p, u). IsAcceptable-IsDocumented m cfg (passes.0 p) u,
      ),
    )

-- As many huge pages as step 6 asks for hold the UMEM, and one fewer does not.
pub hugepages_needed_lem :
    (z kb : ℕ)
    → 0 < kb
    → let n = hugepages_needed z kb in
      let page = kb * 1024 in
      (umem_hugepage_aligned z ≤ n * page) × (n * page < umem_hugepage_aligned z + page)
unfolding hugepages_needed
hugepages_needed_lem z kb h = grind arith
