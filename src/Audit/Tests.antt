-- ===== src/Audit/Tests.antt =====
-- The audits at concrete views.
use olive_branch.Prelude.{Mem}
use olive_branch.Audit.{Value, leaf, array, object, nil, cons, end, entry}
use olive_branch.Audit.Views.{audit_child_view, audit_child_view-misses}

abbrev view : Value
view =
    object (
      entry "signals" (array (cons (object (entry "winRate" leaf (entry "Seen" leaf end))) nil))
        end)

audit_child_view-misses_example : ¬ Mem "winRate" (audit_child_view view)
audit_child_view-misses_example = audit_child_view-misses view
