-- ===== src/Sd/Endpointer/News.antt =====
-- What sd/internal/instance/cache.go sends.
use yoroi.Prelude.{
  ℕ, ◌≤◌, ◌<◌, ◌≡◌, ◌⊎◌, inl, inr, refl, sym, ap, ◌∙◌, String, Option, none, some, List, [], ◌∷◌,
  ◌++◌, length, length-append, arith,
}
use mathlib.Core.List.{append_assoc}
use yoroi.Sd.Event.{Error}
use yoroi.Sd.InstanceCache.{Heap, cells, Notice, Sent, send, broadcast, contents, copy_event}
use yoroi.Sd.InstanceCache.Arrays.{cells_kept, cells_added, IsMade, grow-IsMade}
use yoroi.Sd.InstanceCache.Updates.{View, seen}

-- Arrays are added, and those there were keep their contents.
pub record IsGrown (h h' : Heap) : Type 0 where
  pub longer : length h ≤ length h'
  pub same : (m : ℕ) → m < length h → cells h' m ≡ cells h m

pub IsGrown-trans : (a b c : Heap) → IsGrown a b → IsGrown b c → IsGrown a c
IsGrown-trans a b c h k = record {
  longer = omega (arith, h.longer, k.longer);
  same = λ m l. k.same m (omega (arith, l, h.longer)) ∙ h.same m l;
}

pub add-IsGrown : (h : Heap) (a : List String) → IsGrown h (h ++ a ∷ [])
add-IsGrown h a = record {
  longer = omega (arith, length-append h (a ∷ []));
  same = λ m l. cells_kept h m a l;
}

same-IsGrown : (h : Heap) → IsGrown h h
same-IsGrown h = record { longer = omega arith; same = λ m l. refl }

-- An event that shows the given instances and error.
pub record IsShown (v : View) (h : Heap) (n : Notice) : Type 0 where
  pub made : IsMade (length h) n.instances
  pub shows : seen (contents h n.instances) n.err ≡ v

pub grow-contents :
    (h h' : Heap) (o : Option ℕ) → IsGrown h h' → IsMade (length h) o → contents h' o ≡ contents h o
grow-contents h h' none g m = refl
grow-contents h h' (some a) g m = ap some (g.same a m)

pub grow-IsShown :
    (v : View) (h h' : Heap) (n : Notice) → IsGrown h h' → IsShown v h n → IsShown v h' n
grow-IsShown v h h' n g k = record {
  made = grow-IsMade n.instances g.longer k.made;
  shows = ap (λ xs. seen xs n.err) (grow-contents h h' n.instances g k.made) ∙ k.shows;
}

abbrev pub IsAllShown : View → Heap → List Sent → Type 0
IsAllShown v h [] = Unit
IsAllShown v h (x ∷ xs) = IsShown v h x.notice × IsAllShown v h xs

grow-IsAllShown :
    (v : View) (h h' : Heap) (xs : List Sent)
    → IsGrown h h'
    → IsAllShown v h xs
    → IsAllShown v h' xs
grow-IsAllShown v h h' [] g k = tt
grow-IsAllShown v h h' (x ∷ xs) g k =
    (grow-IsShown v h h' x.notice g k.0, grow-IsAllShown v h h' xs g k.1)

append-IsAllShown :
    (v : View) (h : Heap) (xs ys : List Sent)
    → IsAllShown v h xs
    → IsAllShown v h ys
    → IsAllShown v h (xs ++ ys)
append-IsAllShown v h [] ys k k' = k'
append-IsAllShown v h (x ∷ xs) ys k k' = (k.0, append-IsAllShown v h xs ys k.1 k')

-- Something was sent on the channel.
abbrev pub IsHeard : ℕ → List Sent → Type 0
IsHeard ch [] = ⊥
IsHeard ch (x ∷ xs) = (x.channel ≡ some ch) ⊎ IsHeard ch xs

IsHeard-before : (ch : ℕ) (xs ys : List Sent) → IsHeard ch xs → IsHeard ch (xs ++ ys)
IsHeard-before ch [] ys k = absurd k
IsHeard-before ch (x ∷ xs) ys (inl e) = inl e
IsHeard-before ch (x ∷ xs) ys (inr k) = inr (IsHeard-before ch xs ys k)

IsHeard-after : (ch : ℕ) (xs ys : List Sent) → IsHeard ch ys → IsHeard ch (xs ++ ys)
IsHeard-after ch [] ys k = k
IsHeard-after ch (x ∷ xs) ys k = inr (IsHeard-after ch xs ys k)

abbrev pub IsAmong : ℕ → List ℕ → Type 0
IsAmong ch [] = ⊥
IsAmong ch (c ∷ cs) = (c ≡ ch) ⊎ IsAmong ch cs

-- One copy more.
pub record IsSent (v : View) (ch : Option ℕ) (h : Heap) (sent : List Sent) (out : Heap × List Sent)
    : Type 0 where
  pub notice : Notice
  pub pushed : out.1 ≡ record { channel = ch; notice = notice } ∷ sent
  pub grown : IsGrown h out.0
  pub shown : IsShown v out.0 notice

pub send-IsSent :
    (v : View) (ch : Option ℕ) (o : Option ℕ) (e : Option Error) (h : Heap) (sent : List Sent)
    → IsShown v h (record { instances = o; err = e })
    → IsSent v ch h sent (send ch (record { instances = o; err = e }) (h, sent))
unfolding send copy_event
send-IsSent v ch none e h sent k = record {
  notice = record { instances = none; err = e };
  pushed = refl;
  grown = same-IsGrown h;
  shown = k;
}
send-IsSent v ch (some a) e h sent k = record {
  notice = record { instances = some (length h); err = e };
  pushed = refl;
  grown = add-IsGrown h (cells h a);
  shown = record {
    made = omega (arith, length-append h (cells h a ∷ []));
    shows = ap (λ xs. seen (some xs) e) (cells_added h (cells h a)) ∙ k.shows;
  };
}

-- A copy for each channel.
pub record IsBroadcast (v : View) (chs : List ℕ) (h : Heap) (sent : List Sent)
    (out : Heap × List Sent) : Type 0 where
  pub fresh : List Sent
  pub pushed : out.1 ≡ fresh ++ sent
  pub grown : IsGrown h out.0
  pub shown : IsAllShown v out.0 fresh
  pub heard : (ch : ℕ) → IsAmong ch chs → IsHeard ch fresh

pub broadcast-IsBroadcast :
    (v : View) (chs : List ℕ) (n : Notice) (h : Heap) (sent : List Sent)
    → IsShown v h n
    → IsBroadcast v chs h sent (broadcast chs n (h, sent))
unfolding broadcast
broadcast-IsBroadcast v [] n h sent k = record {
  fresh = [];
  pushed = refl;
  grown = same-IsGrown h;
  shown = tt;
  heard = λ ch i. i;
}
broadcast-IsBroadcast v (ch ∷ chs) n h sent k =
    let out = send (some ch) n (h, sent) in
    let one = send-IsSent v (some ch) n.instances n.err h sent k in
    let rest = broadcast-IsBroadcast v chs n out.0 out.1 (grow-IsShown v h out.0 n one.grown k) in
    let first : Sent = record { channel = some ch; notice = one.notice } in
    record {
      fresh = rest.fresh ++ first ∷ [];
      pushed =
          rest.pushed
          ∙ ap (λ xs. rest.fresh ++ xs) one.pushed
          ∙ sym (append_assoc rest.fresh (first ∷ []) sent);
      grown = IsGrown-trans h out.0 _ one.grown rest.grown;
      shown =
          append-IsAllShown v _ rest.fresh (first ∷ []) rest.shown
            (grow-IsShown v out.0 _ one.notice rest.grown one.shown, tt);
      heard = λ c i. elim i [
        | inl e ↦ IsHeard-after c rest.fresh (first ∷ []) (inl (ap some e))
        | inr j ↦ IsHeard-before c rest.fresh (first ∷ []) (rest.heard c j)
      ];
    }
