-- ===== src/Client/Forwarding.antt =====
-- What is sent of the lines that are typed.
use the_socket_exchange.Common.{
  ℕ, zero, suc, Option, none, some, List, [], ◌∷◌, ◌++◌, Bool, true, false, not, ◌≡◌, refl, ap, ◌∙◌,
  sym, subst, if◌then◌else◌, Bytes, append-nil, append_assoc, codes, bytes_eq,
}
use the_socket_exchange.Framing
use the_socket_exchange.Framing.{strip_cr, drain_loop}
use the_socket_exchange.Protocol.{tokenize}
use the_socket_exchange.Client.{Client, send_line, is_quit, forward}

-- The lines up to the first QUIT, which the end of the stream stands for.
abbrev pub said : List Bytes → Bool → List Bytes
said [] false = []
said [] true = codes "QUIT" ∷ []
said (line ∷ lines) over =
    let later = said lines over in if is_quit (tokenize line) then line ∷ [] else line ∷ later

-- The lines that go out: those before the first `send_line` that fails.
abbrev pub carried : List Bool → List Bytes → List Bytes
carried sends [] = []
carried [] (line ∷ lines) = (line ++ codes "\n") ∷ carried [] lines
carried (true ∷ sends) (line ∷ lines) = (line ++ codes "\n") ∷ carried sends lines
carried (false ∷ sends) (line ∷ lines) = []

-- What a client has sent when it sends some more lines and has not left yet.
abbrev pub says : Client → List Bytes → List Bytes
says c lines = c.sent ++ (if c.sent_quit then [] else carried c.sends lines)

pub send_line-says :
    (line : Bytes) (lines : List Bytes) (c : Client) (sends : List Bool)
    → c.sends ≡ sends
    → let r = send_line (line ++ codes "\n") c sends in
      r.1.sent ++ (if r.0 then carried r.1.sends lines else [])
      ≡ c.sent ++ carried sends (line ∷ lines)
send_line-says line lines c [] e =
    append_assoc c.sent ((line ++ codes "\n") ∷ []) (carried c.sends lines)
    ∙ ap (λ s. c.sent ++ ((line ++ codes "\n") ∷ carried s lines)) e
send_line-says line lines c (true ∷ rest) e =
    append_assoc c.sent ((line ++ codes "\n") ∷ []) (carried rest lines)
send_line-says line lines c (false ∷ rest) e = refl

pub send_line-last :
    (line : Bytes) (c : Client) (sends : List Bool)
    → (send_line (line ++ codes "\n") c sends).1.sent ≡ c.sent ++ carried sends (line ∷ [])
send_line-last line c [] = refl
send_line-last line c (true ∷ rest) = refl
send_line-last line c (false ∷ rest) = sym (append-nil c.sent)

pub send_line-state :
    (line : Bytes) (c : Client) (sends : List Bool)
    → let d = (send_line line c sends).1 in
      (d.sent_quit ≡ c.sent_quit) × (d.watching ≡ c.watching) × (d.stdin_lines ≡ c.stdin_lines)
send_line-state line c [] = (refl, refl, refl)
send_line-state line c (true ∷ rest) = (refl, refl, refl)
send_line-state line c (false ∷ rest) = (refl, refl, refl)

said-cons :
    (line : Bytes) (lines : List Bytes) (over quits : Bool)
    → is_quit (tokenize line) ≡ quits
    → said (line ∷ lines) over ≡ line ∷ (if quits then [] else said lines over)
said-cons line lines over true q = rw q refl
said-cons line lines over false q = rw q refl

-- A client that has taken some lines off its keyboard's buffer, and what the buffer keeps.
abbrev pub HasSaid : Client → List Bytes × Framing.LineBuffer → Client → Type 0
HasSaid c d f =
    ((lines : List Bytes) (over : Bool)
      → says f (said lines over) ≡ c.sent ++ carried c.sends (said (d.0 ++ lines) over))
    × (f.sent_quit ≡ false → f.stdin_lines ≡ d.1)
    × (f.watching ≡ c.watching)

one_line :
    (line : Bytes) (c : Client) (r : Bool × Client) (quits : Bool)
    (d : List Bytes × Framing.LineBuffer) (more : Client)
    → ((lines : List Bytes)
        → r.1.sent ++ (if r.0 then carried r.1.sends lines else [])
          ≡ c.sent ++ carried c.sends (line ∷ lines))
    → is_quit (tokenize line) ≡ quits
    → r.1.watching ≡ c.watching
    → HasSaid r.1 d more
    → let f : Client =
        if not r.0
        then record r.1 { sent_quit = true }
        else if quits
        then record r.1 { sent_quit = true }
        else more in
      HasSaid c (line ∷ d.0, d.1) f
one_line line c (false, c') quits d more out q w (text, keeps, watch) = (
  λ lines over.
      out (if quits then [] else said (d.0 ++ lines) over)
      ∙ ap (λ xs. c.sent ++ carried c.sends xs) (sym (said-cons line (d.0 ++ lines) over quits q)),
  λ k. cc,
  w,
)
one_line line c (true, c') true d more out q w (text, keeps, watch) = (
  λ lines over.
      out []
      ∙ ap (λ xs. c.sent ++ carried c.sends xs) (sym (said-cons line (d.0 ++ lines) over true q)),
  λ k. cc,
  w,
)
one_line line c (true, c') false d more out q w (text, keeps, watch) = (
  λ lines over.
      text lines over
      ∙ out (said (d.0 ++ lines) over)
      ∙ ap (λ xs. c.sent ++ carried c.sends xs) (sym (said-cons line (d.0 ++ lines) over false q)),
  keeps,
  watch ∙ w,
)

pub forward-HasSaid :
    (fuel : ℕ) (c : Client)
    → c.sent_quit ≡ false
    → HasSaid c (drain_loop fuel c.stdin_lines) (forward fuel c)
unfolding forward drain_loop
forward-HasSaid zero c h = (λ lines over. rw h refl, λ k. refl, refl)
forward-HasSaid (suc fuel) c h =
    go (forward-HasSaid fuel) (Framing.next_line c.stdin_lines).0
      (Framing.next_line c.stdin_lines).1
  where
    go :
        ((c' : Client)
          → c'.sent_quit ≡ false
          → HasSaid c' (drain_loop fuel c'.stdin_lines) (forward fuel c'))
        → (found : Option Bytes) (b : Framing.LineBuffer)
        → let c' = record c { stdin_lines = b } in
          let d : List Bytes × Framing.LineBuffer = elim found [
            | none ↦ ([], b)
            | some line ↦ (line ∷ (drain_loop fuel b).0, (drain_loop fuel b).1)
          ] in
          let f : Client = elim found [
            | none ↦ c'
            | some line ↦
                let (ok, c'') = send_line (line ++ codes "\n") c' c'.sends in
                let more = forward fuel c'' in
                if not ok
                then record c'' { sent_quit = true }
                else if is_quit (tokenize line)
                then record c'' { sent_quit = true }
                else more
          ] in
          HasSaid c d f
    go ih none b = (λ lines over. rw h refl, λ k. refl, refl)
    go ih (some line) b =
        let c' = record c { stdin_lines = b } in
        let (quit, watch, keeps) = send_line-state (line ++ codes "\n") c' c.sends in
        let r = send_line (line ++ codes "\n") c' c.sends in
        one_line line c r (is_quit (tokenize line)) (drain_loop fuel b) (forward fuel r.1)
          (λ more. send_line-says line more c' c.sends refl) refl watch
          (subst (λ x. HasSaid r.1 (drain_loop fuel x) (forward fuel r.1)) keeps
            (ih r.1 (quit ∙ h)))
