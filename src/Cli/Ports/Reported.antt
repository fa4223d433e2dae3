-- ===== src/Cli/Ports/Reported.antt =====
-- A failure to publish is reported, and does not stop the command; what was published is printed.
use derico_sandbox.Errors.{Result, err, is_handled, ok}
use derico_sandbox.Prelude.{List, [], if◌then◌else◌, ◌<>◌, ◌∷◌}
use derico_sandbox.Prelude.Decimal.{show}
use derico_sandbox.Publish.{Published, url}
use derico_sandbox.System.{State, System, echoed, push, warned}

-- A state after the lines on these publications, in their order.
abbrev pub announced : List Published → State → State
announced [] s = s
announced (e ∷ es) s =
    announced es
      (push (echoed ("published: " <> url e <> " -> guest port " <> show e.mapping.guest)) s)

-- What becomes of an attempt to publish: the publications are announced, an error of the program is
-- reported and dropped, and any other one passes.
abbrev pub settled : Result (List Published) × State → Result (Unit {0}) × State
settled (ok es, s) = (ok tt, announced es s)
settled (err e, s) =
    if is_handled e then (ok tt, push (warned "Ports were not published" e) s) else (err e, s)
