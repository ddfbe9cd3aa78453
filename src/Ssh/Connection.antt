-- ===== src/Ssh/Connection.antt =====
-- The noise of a connection over SSH (src/honeypots/ssh_honeypot.py): `EnhancedParamikoFilter`,
-- which keeps the library's tracebacks out of the log, and the reason for which `_handle_client`
-- says a connection ended.
use honey_mind.Prelude.{
  Text, codes, eqb, contains, strip, Bool, true, false, All, List, [], ◌∷◌, if◌then◌else◌, ◌≡◌,
  refl, arith,
}

pub record Filter : Type 0 where
  pub seen_errors : List Text
  pub tracebacks_in_progress : Bool

abbrev pub new_filter : Filter
new_filter = record { seen_errors = []; tracebacks_in_progress = false }

-- the first complaint about a banner, outside a traceback, is noted
note_banner : Filter → Filter
note_banner f =
    if f.tracebacks_in_progress
    then f
    else record f { seen_errors = codes "SSH banner error" ∷ f.seen_errors }

-- `filter`: whether the message is logged
unfoldable pub filter : Filter → Text → Filter × Bool
unfolding note_banner
filter f message =
    if contains message (codes "EOFError")
    then (f, false)
    else if contains message (codes "Error reading SSH protocol banner")
    then (note_banner f, false)
    else if contains message (codes "Socket exception: Connection reset by peer")
    then (f, false)
    else if contains message (codes "Traceback (most recent call last)")
    then (record f { tracebacks_in_progress = true }, false)
    else if f.tracebacks_in_progress
    then (
      (if eqb (strip message) [] then record f { tracebacks_in_progress = false } else f),
      false,
    )
    else (f, true)

put_kept : Text → Bool → List Text → List Text
put_kept message kept messages = if kept then message ∷ messages else messages

-- the messages that are logged
unfoldable pub logged_of : Filter → List Text → List Text
unfolding put_kept
logged_of f [] = []
logged_of f (message ∷ messages) =
    let (f', kept) = filter f message in put_kept message kept (logged_of f' messages)

-- how the work on a connection stops: by itself, at the end of the input, or with the message of an
-- error of the library or the system
pub data Stop : Type 0 where
  by_itself end_of_input : Stop
  failed : Text → Stop

unfoldable pub close_reason : Stop → Text
close_reason by_itself = codes "closed"
close_reason end_of_input = codes "client_disconnected"
close_reason (failed message) =
    if contains message (codes "SSH protocol banner")
    then codes "banner_error"
    else if contains message (codes "Connection reset by peer")
    then codes "connection_reset"
    else codes "ssh_error"

-- a message that does not end a traceback
abbrev pub IsFilled : Text → Type 0
IsFilled message = eqb (strip message) [] ≡ false

-- a message that the filter drops, with the traceback still in progress
abbrev Stays : Filter × Bool → Type 0
Stays (f, kept) = (f.tracebacks_in_progress ≡ true) × (kept ≡ false)

note_banner-same : (f : Filter) → f.tracebacks_in_progress ≡ true → note_banner f ≡ f
unfolding note_banner
note_banner-same f h = rw h refl

filter-Stays :
    (f : Filter) (message : Text)
    → f.tracebacks_in_progress ≡ true
    → IsFilled message
    → Stays (filter f message)
unfolding filter
filter-Stays f message h filled = ground (arith, note_banner-same f h)

all_dropped :
    (f : Filter) (messages : List Text)
    → f.tracebacks_in_progress ≡ true
    → All IsFilled messages
    → logged_of f messages ≡ []
unfolding logged_of put_kept
all_dropped f [] h filled = refl
all_dropped f (message ∷ messages) h (here, filled) =
    let (still, dropped) = filter-Stays f message h here in
    rw dropped (all_dropped (filter f message).0 messages still filled)

-- Of a traceback nothing is logged, whatever was logged before it: neither the line that opens it,
-- where that is not dropped for another reason, nor the lines behind it as long as none of them is
-- blank.
pub traceback_hidden :
    (f : Filter) (head : Text) (lines : List Text)
    → contains head (codes "Traceback (most recent call last)") ≡ true
    → contains head (codes "EOFError") ≡ false
    → contains head (codes "Error reading SSH protocol banner") ≡ false
    → contains head (codes "Socket exception: Connection reset by peer") ≡ false
    → All IsFilled lines
    → logged_of f (head ∷ lines) ≡ []
unfolding logged_of put_kept filter
traceback_hidden f head lines opens no_eof no_banner no_reset filled =
    rw (no_eof, no_banner)
      (rw (no_reset, opens)
        (all_dropped (record f { tracebacks_in_progress = true }) lines refl filled))
