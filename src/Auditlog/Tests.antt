-- ===== src/Auditlog/Tests.antt =====
-- A log of two events, one of which has a newline in its command.
use routercli.Base.{true, false, List, [], ◌∷◌, ◌++◌, ◌≡◌, refl, map, All, codes, split}
use routercli.Auditlog.{Event}
use routercli.Auditlog.Lines.{IsRecord, logged, opened, written, line_of, logged-IsRecord}

abbrev events : List Event
events =
    record {
      when = codes "5";
      username = codes "bob";
      peer = codes "local";
      command = codes "show\nversion";
      success = true;
    }
    ∷ record {
      when = codes "6";
      username = [];
      peer = codes "uid=7";
      command = codes "no\tsuch";
      success = false;
    }
    ∷ []

logged-IsRecord_example :
    (logged (opened []) events ≡ opened (written events))
    × (split b'\n' (written events) ≡ map line_of events ++ [] ∷ [])
    × All IsRecord events
logged-IsRecord_example =
    logged-IsRecord events (((refl, tt), (refl, tt)), (((refl, tt), (refl, tt)), tt))
