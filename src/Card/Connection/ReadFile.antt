-- ===== src/Card/Connection/ReadFile.antt =====
-- Reading a file from a card.
use ausweis_app2_omapi.Prelude.{
  ℕ, zero, suc, ◌+◌, ◌-◌, ◌/◌, ◌%◌, ◌<◌, ◌≤◌, Bool, true, false, not, ◌||◌, ◌==◌, if◌then◌else◌,
  ltb, Option, none, some, [], ◌∷◌, ◌++◌, Bytes, length, take, drop, ◌≡◌, refl, ap, sym, ◌∙◌, arith,
  append_assoc, length-append, drop-append, length-drop,
}
use ausweis_app2_omapi.Global.ReturnCode.{CardReturnCode}
use ausweis_app2_omapi.Apdu.Command.{CommandApdu}
use ausweis_app2_omapi.Apdu.StatusCode.{is_value}
use ausweis_app2_omapi.Apdu.Response.{ResponseApdu, get_data, get_return_code}
use ausweis_app2_omapi.Apdu.Response.Status.{status-append}
use ausweis_app2_omapi.Card.Commands.{FileRef, select, read_binary}
use ausweis_app2_omapi.Card.Connection.{
  Worker, Answer, end_of_file, success, is_ok, transmit, read_step, read_loop, read_file,
}

abbrev pub with_status : Bytes → ℕ → ℕ → ResponseApdu
with_status bs hi lo = record { buffer = bs ++ hi ∷ lo ∷ [] }

abbrev pub chosen : Bool → Bytes → ResponseApdu
chosen true [] = with_status [] 0x6b 0x00
chosen true (b ∷ rest) = with_status (b ∷ rest) 0x62 0x82
chosen false rest = with_status (take 255 rest) 0x90 0x00

-- What ISO 7816 asks of a card that is to read 255 bytes where `rest` is the file from the offset on:
-- where nothing is left, the offset is outside the file; fewer bytes come with the warning that the end
-- of the file is reached.
abbrev pub chunk : Bytes → ResponseApdu
chunk rest = chosen (ltb (length rest) 255) rest

-- What comes of a file: the end of one whose length is a multiple of 255 is not recognised.
abbrev pub read_code : ℕ → CardReturnCode
read_code size = if size % 255 == 0 then CardReturnCode.command_failed else CardReturnCode.ok

code_of_end : (bs : Bytes) → get_return_code (with_status bs 0x62 0x82) ≡ end_of_file
unfolding is_value
code_of_end bs = (status-append bs 0x62 0x82).1

code_outside : get_return_code (with_status [] 0x6b 0x00) ≡ 0x6b00
unfolding is_value
code_outside = (status-append [] 0x6b 0x00).1

code_of_success : (bs : Bytes) → get_return_code (with_status bs 0x90 0x00) ≡ success
unfolding is_value
code_of_success bs = (status-append bs 0x90 0x00).1

data_of : (bs : Bytes) (hi lo : ℕ) → get_data (with_status bs hi lo) ≡ bs
data_of bs hi lo = (status-append bs hi lo).0

take-drop : (n : ℕ) (bs : Bytes) → take n bs ++ drop n bs ≡ bs
take-drop zero bs = refl
take-drop (suc n) [] = refl
take-drop (suc n) (b ∷ bs) = ap (◌∷◌ b) (take-drop n bs)

module _ {Card Channel : Type 0} (exchange : Card → CommandApdu → Card × Answer)
    (encrypt : Channel → CommandApdu → Channel × CommandApdu)
    (decrypt : Channel → ResponseApdu → Channel × Option ResponseApdu) where
  -- A connection without a channel to a card in a state.
  abbrev pub ready : Bool → Card → Worker Card Channel
  ready basic s = record { has_card = true; basic_reader = basic; channel = none; card = s }

  transmit-ready :
      (basic : Bool) (s t : Card) (command : CommandApdu) (a : Answer)
      → exchange s command ≡ (t, a)
      → transmit exchange encrypt decrypt (ready basic s) command ≡ (ready basic t, a)
  unfolding transmit
  transmit-ready basic s t command a e = ap (λ x. (ready basic x.0, x.1)) e

  -- What a round does with the status of an answer.
  abbrev choose_end :
      ℕ
      → Worker Card Channel × (CardReturnCode × Bytes)
      → Option (Worker Card Channel × (CardReturnCode × Bytes))
      → Option (Worker Card Channel × (CardReturnCode × Bytes))
  choose_end code finished rest =
      if code == end_of_file
      then some finished
      else if not (code == success)
      then some (finished.0, (CardReturnCode.command_failed, finished.1.1))
      else rest

  step_at_end :
      (loop : Worker Card Channel → Bytes → Option (Worker Card Channel × (CardReturnCode × Bytes)))
      (content rest : Bytes) (w : Worker Card Channel)
      → read_step exchange encrypt decrypt loop content
          (w, (CardReturnCode.ok, with_status rest 0x62 0x82))
        ≡ some (w, (CardReturnCode.ok, content ++ rest))
  unfolding read_step
  step_at_end loop content rest w =
      ap
        (λ c.
          choose_end c (w, (CardReturnCode.ok, content ++ get_data (with_status rest 0x62 0x82)))
            (loop w (content ++ get_data (with_status rest 0x62 0x82))))
        (code_of_end rest)
      ∙ ap (λ d. some (w, (CardReturnCode.ok, content ++ d))) (data_of rest 0x62 0x82)

  step_on :
      (loop : Worker Card Channel → Bytes → Option (Worker Card Channel × (CardReturnCode × Bytes)))
      (content rest : Bytes) (w : Worker Card Channel)
      → read_step exchange encrypt decrypt loop content
          (w, (CardReturnCode.ok, with_status rest 0x90 0x00))
        ≡ loop w (content ++ rest)
  unfolding read_step
  step_on loop content rest w =
      ap
        (λ c.
          choose_end c (w, (CardReturnCode.ok, content ++ get_data (with_status rest 0x90 0x00)))
            (loop w (content ++ get_data (with_status rest 0x90 0x00))))
        (code_of_success rest)
      ∙ ap (λ d. loop w (content ++ d)) (data_of rest 0x90 0x00)

  step_outside :
      (loop : Worker Card Channel → Bytes → Option (Worker Card Channel × (CardReturnCode × Bytes)))
      (content : Bytes) (w : Worker Card Channel)
      → read_step exchange encrypt decrypt loop content
          (w, (CardReturnCode.ok, with_status [] 0x6b 0x00))
        ≡ some (w, (CardReturnCode.command_failed, content ++ []))
  unfolding read_step
  step_outside loop content w =
      ap
        (λ c.
          choose_end c (w, (CardReturnCode.ok, content ++ get_data (with_status [] 0x6b 0x00)))
            (loop w (content ++ get_data (with_status [] 0x6b 0x00))))
        code_outside
      ∙ ap (λ d. some (w, (CardReturnCode.command_failed, content ++ d))) (data_of [] 0x6b 0x00)

  abbrev selected :
      Worker Card Channel × Answer
      → Option (Worker Card Channel × (CardReturnCode × Bytes))
      → Option (Worker Card Channel × (CardReturnCode × Bytes))
  selected r rest =
      if not (is_ok r.1.0) || not (get_return_code r.1.1 == success)
      then some (r.0, (CardReturnCode.command_failed, []))
      else rest

  -- What the last round gives, by what is left of the file.
  abbrev end_code : Bytes → CardReturnCode
  end_code [] = CardReturnCode.command_failed
  end_code (b ∷ rest) = CardReturnCode.ok

  either_end :
      (b : Bool)
      (loop : Worker Card Channel → Bytes → Option (Worker Card Channel × (CardReturnCode × Bytes)))
      (before rest : Bytes) (w : Worker Card Channel) (file : Bytes)
      → before ++ rest ≡ file
      → read_step exchange encrypt decrypt loop before (w, (CardReturnCode.ok, chosen b rest))
        ≡ (if b then some (w, (end_code rest, file)) else loop w (before ++ take 255 rest))
  either_end true loop before [] w file e =
      step_outside loop before w ∙ ap (λ f. some (w, (CardReturnCode.command_failed, f))) e
  either_end true loop before (b ∷ rest) w file e =
      step_at_end loop before (b ∷ rest) w ∙ ap (λ f. some (w, (CardReturnCode.ok, f))) e
  either_end false loop before rest w file e = step_on loop before (take 255 rest) w

  -- One round where a rest of the file is still to be read.
  round :
      (basic : Bool) (s : Card) (file : Bytes)
      → length file < 0x8000
      → ((offset : ℕ)
          → offset ≤ length file
          → offset < 0x8000
          → exchange s (read_binary offset 255)
            ≡ (s, (CardReturnCode.ok, chunk (drop offset file))))
      → (n : ℕ) (before rest : Bytes) → before ++ rest ≡ file
      → read_loop exchange encrypt decrypt (suc n) (ready basic s) before ≡ (
          if ltb (length rest) 255
          then some (ready basic s, (end_code rest, file))
          else read_loop exchange encrypt decrypt n (ready basic s) (before ++ take 255 rest))
  unfolding read_loop
  round basic s file small holds n before rest e =
      let size : length before + length rest ≡ length file =
        sym (length-append before rest) ∙ ap length e in
      let left : drop (length before) file ≡ rest =
        ap (drop (length before)) (sym e) ∙ drop-append before rest in
      let answer : exchange s (read_binary (length before) 255)
          ≡ (s, (CardReturnCode.ok, chunk rest)) =
        holds (length before) (omega (arith, size)) (omega (arith, size))
        ∙ ap (λ r. (s, (CardReturnCode.ok, chunk r))) left in
      ap (read_step exchange encrypt decrypt (read_loop exchange encrypt decrypt n) before) (
        transmit-ready basic s s (read_binary (length before) 255) (CardReturnCode.ok, chunk rest)
          answer)
      ∙ either_end (ltb (length rest) 255) (read_loop exchange encrypt decrypt n) before rest
          (ready basic s) file e

  end_code-read_code : (rest : Bytes) → length rest < 255 → end_code rest ≡ read_code (length rest)
  end_code-read_code [] h = refl
  end_code-read_code (b ∷ rest) h = ground arith

  read_rest :
      (basic : Bool) (s : Card) (file : Bytes)
      → length file < 0x8000
      → ((offset : ℕ)
          → offset ≤ length file
          → offset < 0x8000
          → exchange s (read_binary offset 255)
            ≡ (s, (CardReturnCode.ok, chunk (drop offset file))))
      → (n : ℕ) (before rest : Bytes) → before ++ rest ≡ file
      → length rest / 255 ≡ n
      → read_loop exchange encrypt decrypt (suc n) (ready basic s) before
        ≡ some (ready basic s, (read_code (length rest), file))
  read_rest basic s file small holds zero before rest e h =
      let short : ltb (length rest) 255 ≡ true = ground (arith, h) in
      let below : length rest < 255 = omega (arith, h) in
      round basic s file small holds zero before rest e
      ∙ ap
          (λ b.
            if b
            then some (ready basic s, (end_code rest, file))
            else read_loop exchange encrypt decrypt 0 (ready basic s) (before ++ take 255 rest))
          short
      ∙ ap (λ c. some (ready basic s, (c, file))) (end_code-read_code rest below)
  read_rest basic s file small holds (suc n) before rest e h =
      let long : ltb (length rest) 255 ≡ false = ground (arith, h) in
      let size : length (drop 255 rest) ≡ length rest - 255 = length-drop 255 rest in
      let same : length (drop 255 rest) % 255 ≡ length rest % 255 = omega (arith, size, h) in
      let whole : (before ++ take 255 rest) ++ drop 255 rest ≡ file =
        append_assoc before (take 255 rest) (drop 255 rest)
        ∙ ap (◌++◌ before) (take-drop 255 rest)
        ∙ e in
      round basic s file small holds (suc n) before rest e
      ∙ ap
          (λ b.
            if b
            then some (ready basic s, (end_code rest, file))
            else read_loop exchange encrypt decrypt (suc n) (ready basic s)
                (before ++ take 255 rest))
          long
      ∙ read_rest basic s file small holds n (before ++ take 255 rest) (drop 255 rest) whole
          (omega (arith, size, h))
      ∙ ap
          (λ k. some (
            ready basic s,
            (if k == 0 then CardReturnCode.command_failed else CardReturnCode.ok, file),
          ))
          same

  -- From a card that selects a file of less than 32768 bytes, and answers each command to read 255 bytes
  -- from an offset up to its end with what ISO 7816 asks for, the reading of the file ends after one
  -- round more than its length has 255s, and has read the whole file. It succeeds unless the length is
  -- a multiple of 255: then the last command asks for bytes outside the file, and the reading fails.
  pub read_file_lem :
      (basic : Bool) (s t : Card) (ref : FileRef) (file : Bytes)
      → length file < 0x8000
      → exchange s (select ref) ≡ (t, (CardReturnCode.ok, with_status [] 0x90 0x00))
      → ((offset : ℕ)
          → offset ≤ length file
          → offset < 0x8000
          → exchange t (read_binary offset 255)
            ≡ (t, (CardReturnCode.ok, chunk (drop offset file))))
      → read_file exchange encrypt decrypt (suc (length file / 255)) (ready basic s) ref []
        ≡ some (ready basic t, (read_code (length file), file))
  unfolding read_file
  read_file_lem basic s t ref file small selects holds =
      ap (λ r. selected r (read_loop exchange encrypt decrypt (suc (length file / 255)) r.0 []))
        (transmit-ready basic s t (select ref) (CardReturnCode.ok, with_status [] 0x90 0x00)
          selects)
      ∙ ap
          (λ c.
            if not (c == success)
            then some (ready basic t, (CardReturnCode.command_failed, []))
            else read_loop exchange encrypt decrypt (suc (length file / 255)) (ready basic t) [])
          (code_of_success [])
      ∙ read_rest basic t file small holds (length file / 255) [] file refl refl

  -- Where a card answers every command to read with success and no data, no number of rounds ends the
  -- reading of a file.
  pub read_loop_endless :
      (basic : Bool) (s : Card)
      → ((offset : ℕ)
          → exchange s (read_binary offset 255)
            ≡ (s, (CardReturnCode.ok, with_status [] 0x90 0x00)))
      → (n : ℕ) → read_loop exchange encrypt decrypt n (ready basic s) [] ≡ none
  unfolding read_loop
  read_loop_endless basic s holds zero = refl
  read_loop_endless basic s holds (suc n) =
      ap (read_step exchange encrypt decrypt (read_loop exchange encrypt decrypt n) []) (
        transmit-ready basic s s (read_binary 0 255) (CardReturnCode.ok, with_status [] 0x90 0x00)
          (holds 0))
      ∙ step_on (read_loop exchange encrypt decrypt n) [] [] (ready basic s)
      ∙ read_loop_endless basic s holds n
