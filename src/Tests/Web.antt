-- ===== src/Tests/Web.antt =====
-- The theorems about the management API, the scheduler and text arrays at concrete values.
use tasker.Base.{
  ℕ, ◌+◌, Bool, true, false, ◌&&◌, ltb, ◌==◌, str_eq, if◌then◌else◌, none, some, List, [], ◌∷◌,
  String, ◌≡◌, refl, arith, pos,
}
use tasker.Job.{Error, failure}
use tasker.Sql.Statement.{Result, ok, err}
use tasker.Sql.Arrays.{Text, encode_text_array, decode_text_array}
use tasker.Sql.Arrays.RoundTrip.{decode_text_array-encode_text_array}
use tasker.Web.{other_method, Request, Site, status_body}
use tasker.Web.Answers.{Handler, write_json}
use tasker.Web.Guard.{new_server, handler}
use tasker.Web.Reach.{
  Setup, with_middleware, with_auth, with_csrf, build, handler-without_auth, handler-Forged,
}
use tasker.Scheduler.{ScheduledJob, Cron, new_scheduler}
use tasker.Scheduler.Entries.{
  RegisterCall, registering, removing, calls_on, InStep, calls_on-InStep,
}

-- Routes that count the requests which reach them.
abbrev counting : Handler ℕ ℕ ℕ ℕ
counting r s = (write_json 200 (status_body "ok"), record s { world = s.world + 1 })

abbrev some_site : Site ℕ
some_site = record { world = 0; supervisor = none }

abbrev forged_post : Request
forged_post = record {
  method = other_method "POST";
  path_id = "7";
  path_queue = "";
  query = λ name. "";
  ids = none;
  csrf_cookie = none;
  csrf_header = "token";
  now = pos 5;
}

abbrev guarded : List (Setup ℕ ℕ ℕ ℕ)
guarded = with_auth (λ h. h) ∷ with_csrf (some "token") ∷ []

abbrev open_to_all : List (Setup ℕ ℕ ℕ ℕ)
open_to_all = with_middleware (λ h. h) ∷ []

handler-Forged_example :
    (handler (build guarded (new_server "/tasker")) counting forged_post some_site).1 ≡ some_site
handler-Forged_example =
    handler-Forged "/tasker" guarded counting ((λ h k. k), (tt, tt)) refl forged_post some_site refl
      refl

handler-without_auth_example :
    (handler (build open_to_all (new_server "")) counting forged_post some_site).1 ≡ some_site
handler-without_auth_example =
    handler-without_auth "" open_to_all counting ((λ h k. k), tt) refl forged_post some_site

-- A cron that counts its entries' ids up and refuses the schedule "bad".
abbrev Counted : Type 0
Counted = ℕ × (ℕ → Bool)

abbrev has_counted : ℕ → Counted → Bool
has_counted j (n, f) = ltb j n && f j

abbrev add_counted : String → Counted → Result ℕ × Counted
add_counted schedule (n, f) =
    if str_eq schedule "bad"
    then (err (failure "bad schedule"), (n, f))
    else (ok n, (n + 1, λ j. if j == n then true else f j))

added_counted :
    (schedule : String) (c : Counted) (e : ℕ)
    → (add_counted schedule c).0 ≡ ok e
    → (has_counted e c ≡ false)
      × ((j : ℕ)
          → has_counted j (add_counted schedule c).1 ≡ (if e == j then true else has_counted j c))
added_counted schedule (n, f) e h = (ground arith, λ j. ground arith)

refused_counted :
    (schedule : String) (c : Counted) (x : Error)
    → (add_counted schedule c).0 ≡ err x
    → (j : ℕ) → has_counted j (add_counted schedule c).1 ≡ has_counted j c
refused_counted schedule (n, f) x h j = ground arith

abbrev remove_counted : ℕ → Counted → Counted
remove_counted e (n, f) = (n, λ j. if e == j then false else f j)

removed_counted :
    (e : ℕ) (c : Counted) (j : ℕ)
    → has_counted j (remove_counted e c) ≡ (if e == j then false else has_counted j c)
removed_counted e (n, f) j = ground arith

abbrev counted_cron : Cron Counted
counted_cron = record {
  add_func = add_counted;
  remove_entry = remove_counted;
  has_entry = has_counted;
  added = added_counted;
  refused = refused_counted;
  removed = removed_counted;
}

abbrev nightly : ScheduledJob ℕ
nightly = record { id = "nightly"; schedule = "20 4 * * *"; job = 1; queue = "mail"; opts = [] }

abbrev some_registrations : List (RegisterCall ℕ)
some_registrations =
    registering nightly
    ∷ registering (record nightly { id = "broken"; schedule = "bad" })
    ∷ registering nightly
    ∷ removing "broken"
    ∷ []

calls_on-InStep_example :
    InStep counted_cron (calls_on counted_cron some_registrations (new_scheduler (0, λ e. false)))
calls_on-InStep_example =
    calls_on-InStep counted_cron (0, λ e. false) some_registrations (λ e. ground arith)

-- A text with a quote, a backslash and a brace, and an empty text.
abbrev some_texts : List Text
some_texts = (b'a' ∷ b'"' ∷ b'\\' ∷ b'}' ∷ []) ∷ [] ∷ (b',' ∷ b' ' ∷ []) ∷ []

decode_text_array-encode_text_array_example :
    decode_text_array (λ t. t) (λ t. none) (encode_text_array some_texts) ≡ some_texts
decode_text_array-encode_text_array_example =
    decode_text_array-encode_text_array (λ t. t) (λ t. none) some_texts (λ t. refl)
