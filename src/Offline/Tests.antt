-- ===== src/Offline/Tests.antt =====
-- The theorems on offline.ts at a concrete outbox.
use olive_branch.Prelude.{
  ℕ, String, ◌≡◌, refl, ◌≢◌, Bool, false, none, List, [], ◌∷◌, All, Any, IsOrder, ltb, length,
  codes, arith,
}
use olive_branch.Offline.Outbox.{OutboxItem, NewItem, drawing, ping, enqueue}
use olive_branch.Offline.Keeping.{
  OutboxEvent, failure, delivery, outbox_run, IsMade, IsNotDelivery, enqueue-IsKept,
}
use olive_branch.Offline.Conflicts.{Edit, child, guardian}

abbrev picture : NewItem ℕ
picture = record { id = "a"; kind = drawing; created_at = "12"; payload = 7 }

abbrev drive : List (OutboxEvent ℕ)
drive = failure "a" "offline" ∷ delivery "b" ∷ []

no_ping : drawing ≢ ping
no_ping h = cc

not_sent : All (IsNotDelivery "a") drive
not_sent = (tt, (refl, tt))

enqueue-IsKept_example :
    ((enqueue [] picture).dropped ≡ false)
    × Any (IsMade picture) (outbox_run (enqueue [] picture).outbox drive)
enqueue-IsKept_example = enqueue-IsKept [] picture drive no_ping not_sent

abbrev shorter : String → String → Bool
shorter x y = ltb (length (codes x)) (length (codes y))

shorter-IsOrder : IsOrder shorter
shorter-IsOrder = record {
  asymmetric = λ x y h. ground arith;
  cotransitive = λ x y z h k. ground arith;
}

abbrev waiting : List (OutboxItem ℕ)
waiting =
    record {
      id = "a";
      kind = drawing;
      created_at = "12";
      payload = 7;
      attempts = 0;
      last_error = none;
    }
    ∷ []

abbrev hers : Edit ℕ
hers = record { actor = child; at = "1"; value = 1; by = "mia" }

abbrev his : Edit ℕ
his = record { actor = guardian; at = "2"; value = 2; by = "dad" }
