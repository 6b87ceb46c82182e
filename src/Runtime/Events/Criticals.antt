-- ===== src/Runtime/Events/Criticals.antt =====
-- event.rs: the critical events in the queue.
use easycon_sdk.Common.{◌≡◌, refl, false, List, [], ◌∷◌, ◌++◌, arith, if◌then◌else◌}
use easycon_sdk.Runtime.Events.{
  Event, QueueEntry, event, gap, PendingGap, gap_of, merge, is_ordinary, any_event,
}
use easycon_sdk.Runtime.Events.Shape.{glue, append_gap, drop_first, has}

-- The critical events, oldest first.
abbrev pub criticals : List QueueEntry → List Event
criticals [] = []
criticals (gap g ∷ xs) = criticals xs
criticals (event e ∷ xs) = let others = criticals xs in if is_ordinary e then others else e ∷ others

abbrev pub without_first : List Event → List Event
without_first [] = []
without_first (e ∷ es) = es

criticals-glue : (g : PendingGap) (xs : List QueueEntry) → criticals (glue g xs) ≡ criticals xs
criticals-glue g [] = refl
criticals-glue g (event e ∷ xs) = refl
criticals-glue g (gap h ∷ xs) = refl

-- Dropping an ordinary event keeps the critical ones.
pub criticals-drop_ordinary :
    (xs : List QueueEntry) → criticals (drop_first is_ordinary xs) ≡ criticals xs
criticals-drop_ordinary [] = refl
criticals-drop_ordinary (event e ∷ xs) =
    ground (arith, criticals-glue (gap_of e) xs, criticals-drop_ordinary xs)
criticals-drop_ordinary (gap g ∷ []) = refl
criticals-drop_ordinary (gap g ∷ gap k ∷ xs) = criticals-drop_ordinary (gap k ∷ xs)
criticals-drop_ordinary (gap g ∷ event e ∷ xs) =
    ground (arith, criticals-glue (merge (gap_of e) g) xs, criticals-drop_ordinary xs)

-- Where all events are critical, dropping any drops the oldest.
pub criticals-drop_any :
    (xs : List QueueEntry)
    → has is_ordinary xs ≡ false
    → criticals (drop_first any_event xs) ≡ without_first (criticals xs)
criticals-drop_any [] h = refl
criticals-drop_any (event e ∷ xs) h = ground (arith, criticals-glue (gap_of e) xs)
criticals-drop_any (gap g ∷ []) h = refl
criticals-drop_any (gap g ∷ gap k ∷ xs) h = criticals-drop_any (gap k ∷ xs) h
criticals-drop_any (gap g ∷ event e ∷ xs) h = ground (arith, criticals-glue (merge (gap_of e) g) xs)

pub criticals-append_gap :
    (xs : List QueueEntry) (g : PendingGap) → criticals (append_gap xs g) ≡ criticals xs
criticals-append_gap [] g = refl
criticals-append_gap (gap h ∷ []) g = refl
criticals-append_gap (event e ∷ xs) g = ground (arith, criticals-append_gap xs g)
criticals-append_gap (gap h ∷ y ∷ xs) g = criticals-append_gap (y ∷ xs) g

pub criticals-push :
    (xs : List QueueEntry) (e : Event)
    → criticals (xs ++ event e ∷ []) ≡ criticals xs ++ (if is_ordinary e then [] else e ∷ [])
criticals-push [] e = ground arith
criticals-push (gap g ∷ xs) e = criticals-push xs e
criticals-push (event f ∷ xs) e = ground (arith, criticals-push xs e)
