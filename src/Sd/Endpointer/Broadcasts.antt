-- ===== src/Sd/Endpointer/Broadcasts.antt =====
-- What each step of sd/internal/instance/cache.go tells a registered channel.
use yoroi.Prelude.{
  ℕ, ◌≡◌, ◌≢◌, ◌⊎◌, inl, inr, refl, sym, ap, subst, ◌∙◌, String, Option, none, some, List, [], ◌∷◌,
  ◌++◌, ◌==◌, ==_iff, length, length-append, arith, sort, Bool-cases, if◌then◌else◌,
}
use yoroi.Sd.Event.{Error}
use yoroi.Sd.InstanceCache.{
  Heap, cells, set_cells, Notice, Sent, Cache, send, broadcast, sort_at, contents, deep_equal,
  announced, update, state, register, deregister, add_channel, remove_channel, Step, updates, reads,
  registers, deregisters, writes, step,
}
use yoroi.Sd.InstanceCache.Arrays.{
  cells_kept, cells_elsewhere, length-set_cells, IsMade, IsIsolated,
}
use yoroi.Sd.InstanceCache.Updates.{seen, view, update_same, update_differs}
use yoroi.Sd.InstanceCache.Isolation.{view-step}
use yoroi.Sd.Endpointer.News.{
  IsShown, IsAllShown, grow-contents, IsHeard, IsAmong, send-IsSent, broadcast-IsBroadcast,
}

-- What was sent shows what the cache holds now, and the channel heard of it if that has changed.
pub record IsSpoken (ch : ℕ) (c c' : Cache) : Type 0 where
  pub fresh : List Sent
  pub pushed : c'.sent ≡ fresh ++ c.sent
  pub shown : IsAllShown (view c') c'.heap fresh
  pub heard : (view c' ≡ view c) ⊎ IsHeard ch fresh

quiet-IsSpoken : (ch : ℕ) (c c' : Cache) → c'.sent ≡ c.sent → view c' ≡ view c → IsSpoken ch c c'
quiet-IsSpoken ch c c' e k = record { fresh = []; pushed = e; shown = tt; heard = inl k }

length-sorted : (o : Option ℕ) (h : Heap) → length (sort_at o h) ≡ length h
length-sorted none h = refl
length-sorted (some a) h = length-set_cells h a (sort (cells h a))

IsMade-sorted : (o : Option ℕ) (h : Heap) → IsMade (length h) o → IsMade (length (sort_at o h)) o
IsMade-sorted none h m = m
IsMade-sorted (some a) h m = omega (arith, m, length-sorted (some a) h)

-- An update whose slice is not that of the cache.
update-IsSpoken :
    (ch : ℕ) (c : Cache) (n : Notice)
    → IsAmong ch c.reg
    → IsMade (length c.heap) n.instances
    → contents (sort_at n.instances c.heap) c.state.instances ≡ contents c.heap c.state.instances
    → IsSpoken ch c (update c n)
update-IsSpoken ch c n among made apart =
    let h = sort_at n.instances c.heap in
    elim (Bool-cases (deep_equal h c.state n)) [
      | inl same ↦
          subst (IsSpoken ch c) (sym (update_same c n same)) (
            quiet-IsSpoken ch c (record c { heap = h }) refl (ap (λ xs. seen xs c.state.err) apart))
      | inr differ ↦
          let v = seen (contents h n.instances) n.err in
          let start : IsShown v h n = record {
            made = IsMade-sorted n.instances c.heap made;
            shows = refl;
          } in
          let b = broadcast-IsBroadcast v c.reg n h c.sent start in
          let out = broadcast c.reg n (h, c.sent) in
          let now : v ≡ view (announced c n) =
            ap (λ xs. seen xs n.err) (sym (grow-contents h out.0 n.instances b.grown start.made)) in
          subst (IsSpoken ch c) (sym (update_differs c n differ)) (record {
            fresh = b.fresh;
            pushed = b.pushed;
            shown = subst (λ w. IsAllShown w out.0 b.fresh) now b.shown;
            heard = inr (b.heard ch among);
          })
    ]

-- The slice of an update is new.
made_apart :
    (h : Heap) (xs : List String) (own : Option ℕ)
    → IsMade (length h) own
    → contents (set_cells (h ++ xs ∷ []) (length h) (sort (cells (h ++ xs ∷ []) (length h)))) own
      ≡ contents h own
made_apart h xs none m = refl
made_apart h xs (some b) m = ap some (
    cells_elsewhere (h ++ xs ∷ []) (length h) b _ (λ e. absurd (omega (arith, m, e)))
    ∙ cells_kept h b xs m)

-- Changes of the cache before the update do not matter to the channel.
later-IsSpoken :
    (ch : ℕ) (c c1 c' : Cache)
    → c1.sent ≡ c.sent
    → view c1 ≡ view c
    → IsSpoken ch c1 c'
    → IsSpoken ch c c'
later-IsSpoken ch c c1 c' e k s = record {
  fresh = s.fresh;
  pushed = s.pushed ∙ ap (λ xs. s.fresh ++ xs) e;
  shown = s.shown;
  heard = elim s.heard [ inl same ↦ inl (same ∙ k) | inr heard ↦ inr heard ];
}

update_made :
    (ch : ℕ) (c : Cache) (xs : Option (List String)) (e : Option Error)
    → IsIsolated c
    → IsAmong ch c.reg
    → IsSpoken ch c (step c (updates xs e))
unfolding step
update_made ch c none e iso among =
    update-IsSpoken ch c (record { instances = none; err = e }) among tt refl
update_made ch c (some xs) e iso among =
    let h = c.heap ++ xs ∷ [] in
    let c1 = record c { heap = h } in
    let kept : contents h c.state.instances ≡ contents c.heap c.state.instances =
      added_apart c.state.instances iso.own in
    later-IsSpoken ch c c1 _ refl (ap (λ ys. seen ys c.state.err) kept) (
      update-IsSpoken ch c1 (record { instances = some (length c.heap); err = e }) among
        (omega (arith, length-append c.heap (xs ∷ [])))
        (made_apart c.heap xs c.state.instances iso.own ∙ sym kept))
  where
    added_apart :
        (own : Option ℕ)
        → IsMade (length c.heap) own
        → contents (c.heap ++ xs ∷ []) own ≡ contents c.heap own
    added_apart none m = refl
    added_apart (some b) m = ap some (cells_kept c.heap b xs m)

-- The state is sent to one receiver.
send-IsSpoken :
    (ch : ℕ) (c : Cache) (to : Option ℕ) (reg' : List ℕ)
    → IsIsolated c
    → let out = send to c.state (c.heap, c.sent) in
      let c' : Cache = record { heap = out.0; state = c.state; reg = reg'; sent = out.1 } in
      (view c' ≡ view c)
      × IsSpoken ch c c'
      × (to ≡ some ch → (s : IsSpoken ch c c') × IsHeard ch s.fresh)
send-IsSpoken ch c to reg' iso =
    let start : IsShown (view c) c.heap c.state = record { made = iso.own; shows = refl } in
    let s = send-IsSent (view c) to c.state.instances c.state.err c.heap c.sent start in
    let out = send to c.state (c.heap, c.sent) in
    let now : view (record { heap = out.0; state = c.state; reg = reg'; sent = out.1 }) ≡ view c =
      ap (λ xs. seen xs c.state.err)
        (grow-contents c.heap out.0 c.state.instances s.grown iso.own) in
    let spoken : IsSpoken ch c
        (record { heap = out.0; state = c.state; reg = reg'; sent = out.1 }) =
      record {
        fresh = record { channel = to; notice = s.notice } ∷ [];
        pushed = s.pushed;
        shown = (subst (λ w. IsShown w out.0 s.notice) (sym now) s.shown, tt);
        heard = inl now;
      } in
    (now, spoken, λ e. (spoken, inl e))

-- Every step but the Deregister of the channel leaves it registered.
abbrev pub IsOther : ℕ → Step → Type 0
IsOther ch (deregisters c) = c ≢ ch
IsOther ch (updates xs e) = Unit
IsOther ch reads = Unit
IsOther ch (registers c) = Unit
IsOther ch (writes i xs) = Unit

IsAmong-add_channel : (ch c : ℕ) (cs : List ℕ) → IsAmong ch cs → IsAmong ch (add_channel c cs)
IsAmong-add_channel ch c [] h = absurd h
IsAmong-add_channel ch c (x ∷ xs) h = elim (Bool-cases (x == c)) [
  | inl e ↦ subst (λ b. IsAmong ch (if b then x ∷ xs else x ∷ add_channel c xs)) (sym e) h
  | inr e ↦
      subst (λ b. IsAmong ch (if b then x ∷ xs else x ∷ add_channel c xs)) (sym e)
        (elim h [ inl here ↦ inl here | inr there ↦ inr (IsAmong-add_channel ch c xs there) ])
]

pub add_channel-IsAmong : (ch : ℕ) (cs : List ℕ) → IsAmong ch (add_channel ch cs)
add_channel-IsAmong ch [] = inl refl
add_channel-IsAmong ch (x ∷ xs) = elim (Bool-cases (x == ch)) [
  | inl e ↦
      subst (λ b. IsAmong ch (if b then x ∷ xs else x ∷ add_channel ch xs)) (sym e)
        (inl ((==_iff x ch).0 e))
  | inr e ↦
      subst (λ b. IsAmong ch (if b then x ∷ xs else x ∷ add_channel ch xs)) (sym e)
        (inr (add_channel-IsAmong ch xs))
]

remove_channel-IsAmong :
    (ch c : ℕ) (cs : List ℕ) → c ≢ ch → IsAmong ch cs → IsAmong ch (remove_channel c cs)
remove_channel-IsAmong ch c [] d h = absurd h
remove_channel-IsAmong ch c (x ∷ xs) d h = elim (Bool-cases (x == c)) [
  | inl e ↦
      subst (λ b. IsAmong ch (if b then xs else x ∷ remove_channel c xs)) (sym e)
        (elim h [ inl here ↦ absurd (d (sym ((==_iff x c).0 e) ∙ here)) | inr there ↦ there ])
  | inr e ↦
      subst (λ b. IsAmong ch (if b then xs else x ∷ remove_channel c xs)) (sym e)
        (elim h [ inl here ↦ inl here | inr there ↦ inr (remove_channel-IsAmong ch c xs d there) ])
]

update_reg : (c : Cache) (n : Notice) → (update c n).reg ≡ c.reg
update_reg c n = elim (Bool-cases (deep_equal (sort_at n.instances c.heap) c.state n)) [
  | inl e ↦ ap (λ (x : Cache). x.reg) (update_same c n e)
  | inr e ↦ ap (λ (x : Cache). x.reg) (update_differs c n e)
]

updates_reg :
    (c : Cache) (xs : Option (List String)) (e : Option Error) → (step c (updates xs e)).reg ≡ c.reg
unfolding step
updates_reg c none e = update_reg c (record { instances = none; err = e })
updates_reg c (some xs) e =
    update_reg (record c { heap = c.heap ++ xs ∷ [] })
      (record { instances = some (length c.heap); err = e })

-- Between steps.
pub record IsListening (ch : ℕ) (c : Cache) : Type 0 where
  pub isolated : IsIsolated c
  pub among : IsAmong ch c.reg

pub step-IsSpoken :
    (ch : ℕ) (c : Cache) (s : Step)
    → IsOther ch s
    → IsListening ch c
    → IsListening ch (step c s) × IsSpoken ch c (step c s)
unfolding step state register deregister
step-IsSpoken ch c (updates xs e) o l = (
  record {
    isolated = (view-step c (updates xs e) l.isolated).0;
    among = subst (IsAmong ch) (sym (updates_reg c xs e)) l.among;
  },
  update_made ch c xs e l.isolated l.among,
)
step-IsSpoken ch c reads o l =
    let s = send-IsSpoken ch c none c.reg l.isolated in
    (record { isolated = (view-step c reads l.isolated).0; among = l.among }, s.1)
step-IsSpoken ch c (registers ch') o l =
    let s = send-IsSpoken ch c (some ch') (add_channel ch' c.reg) l.isolated in
    (
      record {
        isolated = (view-step c (registers ch') l.isolated).0;
        among = IsAmong-add_channel ch ch' c.reg l.among;
      },
      s.1,
    )
step-IsSpoken ch c (deregisters ch') o l = (
  record {
    isolated = (view-step c (deregisters ch') l.isolated).0;
    among = remove_channel-IsAmong ch ch' c.reg o l.among;
  },
  quiet-IsSpoken ch c (record c { reg = remove_channel ch' c.reg }) refl refl,
)
step-IsSpoken ch c (writes i xs) o l =
    let k = view-step c (writes i xs) l.isolated in
    (
      record { isolated = k.0; among = l.among },
      quiet-IsSpoken ch c (step c (writes i xs)) refl k.1,
    )

-- Register sends the state to its own channel.
pub register-IsSpoken :
    (ch : ℕ) (c : Cache)
    → IsIsolated c
    → IsListening ch (step c (registers ch))
      × ((s : IsSpoken ch c (step c (registers ch))) × IsHeard ch s.fresh)
unfolding step register
register-IsSpoken ch c iso = (
  record { isolated = (view-step c (registers ch) iso).0; among = add_channel-IsAmong ch c.reg },
  (send-IsSpoken ch c (some ch) (add_channel ch c.reg) iso).2 refl,
)
