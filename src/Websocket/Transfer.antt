-- ===== src/Websocket/Transfer.antt =====
-- The two ends of a WebSocket connection (internal/tunnel/runner.go), and its control frames.
use backhaul_recovered.Prelude.{
  ap₂, ℕ, ◌+◌, ◌^◌, ◌<◌, ◌≤◌, ◌≡◌, ◌≢◌, refl, sym, ap, ◌∙◌, Bool, true, false, List, [], ◌∷◌, ◌++◌,
  length, arith, if◌then◌else◌, append_assoc, append-nil, subst, length-append, All,
}
use backhaul_recovered.Prelude.Text.{Str}
use backhaul_recovered.Net.{returned, failed, eof}
use backhaul_recovered.Net.Laws.{ReportsErrors, read_full_short}
use backhaul_recovered.Stream.{Buffered, concat, Source, write_each}
use backhaul_recovered.Stream.Laws.{copy_all}
use backhaul_recovered.Stream.Chunks.{Emitted, none_sent, one_sent, write_each-Emitted}
use backhaul_recovered.Websocket.{
  Websocket, first_mask, rest_masks, write_frame, next_frame, budget, ws_copy,
}
use backhaul_recovered.Websocket.Frames.{
  frame, with_incoming, next_frame-frame, write_frame_lem, after_frame, length-frame,
}
use backhaul_recovered.Websocket.Laws.{content, content_data, length-content, dispatch_lem}

pub record WsFrame : Type 0 where
  pub opcode : ℕ
  pub key : Str
  pub payload : Str

-- A frame that is no close frame and that a reader takes.
pub record Good (f : WsFrame) : Type 0 where
  pub nibble : f.opcode < 16
  pub goes_on : f.opcode ≢ 0x8
  pub four : length f.key ≡ 4
  pub short : length f.payload < 2 ^ 31

-- The bytes of a row of frames, masked or not, and what they carry.
abbrev pub wire : Bool → List WsFrame → Str
wire b [] = []
wire b (f ∷ fs) = frame b f.opcode f.key f.payload ++ wire b fs

abbrev pub contents : List WsFrame → List Str
contents [] = []
contents (f ∷ fs) = content f.opcode f.payload ∷ contents fs

first_mask_four : (ks : List Str) → All (λ k. length k ≡ 4) ks → length (first_mask ks) ≡ 4
first_mask_four [] h = refl
first_mask_four (k ∷ ks) h = h.0

masks_left :
    (b : Bool) (ks : List Str)
    → All (λ k. length k ≡ 4) ks
    → All (λ k. length k ≡ 4) (if b then rest_masks ks else ks)
masks_left false ks h = h
masks_left true [] h = tt
masks_left true (k ∷ ks) h = h.1

module _ (b : Bool) where
  -- Behind a reader stand frames with the messages `cs`, and then the end.
  pub record Rest (s : Websocket) (cs : List Str) : Type 0 where
    pub frames : List WsFrame
    pub carried : cs ≡ contents frames
    pub good : All Good frames
    pub is_open : s.conn.is_closed ≡ false
    pub at_end : s.conn.ends ≡ eof
    pub bytes : s.conn.incoming ≡ wire b frames

  message_of :
      (fs : List WsFrame) (s : Websocket) (c : Str) (cs : List Str)
      → (c ∷ cs) ≡ contents fs
      → All Good fs
      → s.conn.is_closed ≡ false
      → s.conn.ends ≡ eof
      → s.conn.incoming ≡ wire b fs
      → (t : Websocket) × (next_frame s ≡ returned c t) × Rest t cs
  message_of [] s c cs q g o e w = cc
  message_of (f ∷ fs) s c cs q (g, gs) o e w =
      let read =
        next_frame-frame b f.opcode f.key f.payload (wire b fs) s g.nibble g.four g.short o w in
      let (t, d, k) = dispatch_lem f.opcode f.payload (with_incoming (wire b fs) s) g.goes_on in
      (
        t,
        read ∙ d ∙ ap (λ z. returned z t) (cc),
        record {
          frames = fs;
          carried = cc;
          good = gs;
          is_open = k.same_closed ∙ o;
          at_end = k.same_ends ∙ e;
          bytes = k.same_incoming;
        },
      )

  next_message :
      (s : Websocket) (c : Str) (cs : List Str)
      → Rest s (c ∷ cs)
      → (t : Websocket) × (next_frame s ≡ returned c t) × Rest t cs
  next_message s c cs r = message_of r.frames s c cs r.carried r.good r.is_open r.at_end r.bytes

  end_of :
      (fs : List WsFrame) (s : Websocket)
      → [] ≡ contents fs
      → s.conn.is_closed ≡ false
      → s.conn.ends ≡ eof
      → s.conn.incoming ≡ wire b fs
      → (t : Websocket) × (next_frame s ≡ failed eof t)
  unfolding next_frame
  end_of [] s q o e w = (with_incoming [] s, ground (arith, read_full_short 2 s.conn))
  end_of (f ∷ fs) s q o e w = cc

  next_end : (s : Websocket) → Rest s [] → (t : Websocket) × (next_frame s ≡ failed eof t)
  next_end s r = end_of r.frames s r.carried r.is_open r.at_end r.bytes

  length-wire :
      (fs : List WsFrame)
      → length (contents fs) + length (concat (contents fs)) ≤ length (wire b fs)
  length-wire [] = omega arith
  length-wire (f ∷ fs) = omega (
    arith,
    length-append (frame b f.opcode f.key f.payload) (wire b fs),
    length-append (content f.opcode f.payload) (concat (contents fs)),
    length-content f.opcode f.payload,
    length-frame b f.opcode f.key f.payload,
    length-wire fs,
  )

  enough : (s : Websocket) (cs : List Str) → Rest s cs → length cs + length (concat cs) < budget s
  enough s cs r =
      rw r.carried (omega (arith, ap (λ (q : Str). length q) r.bytes, length-wire r.frames))

  abbrev ws_source : Source Websocket
  ws_source = record {
    next = next_frame;
    Rest = Rest;
    budget = budget;
    next_message = next_message;
    next_end = next_end;
    enough = enough;
  }

  -- Frames written one after the other, on the way from one state to another.
  frames_sent :
      (s t : Websocket) (cs : List Str)
      → s.is_client ≡ b
      → ReportsErrors s.conn.script
      → All (λ k. length k ≡ 4) s.masks
      → Emitted (write_frame 0x2) 65535 s cs t
      → (fs : List WsFrame) × (t.conn.sent ≡ s.conn.sent ++ wire b fs)
        × (cs ≡ contents fs)
        × All Good fs
  frames_sent s t [] role r m (none_sent e) =
      ([], ap (λ (k : Websocket). k.conn.sent) (sym e) ∙ sym (append-nil s.conn.sent), refl, tt)
  frames_sent s t (c ∷ cs) role r m (one_sent {t = u} e l h) =
      let w : u ≡ after_frame b 0x2 c s =
        write_frame_lem 0x2 c s u r e ∙ ap (λ z. after_frame z 0x2 c s) role in
      let (fs, q, p, g) =
        frames_sent u t cs (ap (λ (k : Websocket). k.is_client) w ∙ role)
          (subst (λ (k : Websocket). ReportsErrors k.conn.script) (sym w) r)
          (subst (λ (k : Websocket). All (λ z. length z ≡ 4) k.masks) (sym w)
            (masks_left b s.masks m))
          h in
      (
        record { opcode = 0x2; key = first_mask s.masks; payload = c } ∷ fs,
        q
            ∙ ap (λ (k : Websocket). k.conn.sent ++ wire b fs) w
            ∙ append_assoc s.conn.sent (frame b 0x2 (first_mask s.masks) c) (wire b fs),
        ap₂ (λ x y. x ∷ y) (sym (content_data c)) p,
        (
          record {
            nibble = omega arith;
            goes_on = omega arith;
            four = first_mask_four s.masks m;
            short = omega arith;
          },
          g,
        ),
      )

-- Whatever Writes one end makes, if they report success, the other end's reader gets exactly their
-- bytes joined, by Reads of any size `m`, and then the end of the stream: masked by a client, plain
-- from a server, on a connection that reports its errors.
pub ws_transfer :
    (ps : List Str) (m : ℕ) (s t r : Websocket) {o : Unit {0}}
    → 0 < m
    → ReportsErrors s.conn.script
    → All (λ k. length k ≡ 4) s.masks
    → s.conn.sent ≡ []
    → write_each (write_frame 0x2) 65535 ps s ≡ returned o t
    → r.conn.is_closed ≡ false
    → r.conn.ends ≡ eof
    → r.conn.incoming ≡ t.conn.sent
    → (d : Buffered Websocket) × (ws_copy m (record { inner = r; rbuf = [] })
        ≡ returned (concat ps) d)
unfolding ws_copy
ws_transfer ps m s t r pos rep four fresh w open_ ends arrived =
    let (cs, em, c) = write_each-Emitted (write_frame 0x2) 65535 (omega arith) ps s t w in
    let (fs, q, p, g) = frames_sent s.is_client s t cs refl rep four em in
    let behind : Rest s.is_client r cs = record {
      frames = fs;
      carried = p;
      good = g;
      is_open = open_;
      at_end = ends;
      bytes = arrived ∙ q ∙ ap (λ z. z ++ wire s.is_client fs) fresh;
    } in
    let (d, e) = copy_all (ws_source s.is_client) m r cs behind pos in
    (d, e ∙ ap (λ z. returned z d) c)

-- A reader that gets any row of well-formed frames with no close frame among them, pings, pongs and
-- reserved ones included, hands on the payloads of its data frames, joined, and nothing else.
pub control_frames_transparent :
    (b : Bool) (fs : List WsFrame) (m : ℕ) (r : Websocket)
    → 0 < m
    → All Good fs
    → r.conn.is_closed ≡ false
    → r.conn.ends ≡ eof
    → r.conn.incoming ≡ wire b fs
    → (d : Buffered Websocket) × (ws_copy m (record { inner = r; rbuf = [] })
        ≡ returned (concat (contents fs)) d)
unfolding ws_copy
control_frames_transparent b fs m r pos g open_ ends arrived =
    copy_all (ws_source b) m r (contents fs)
      (record {
        frames = fs;
        carried = refl;
        good = g;
        is_open = open_;
        at_end = ends;
        bytes = arrived;
      })
      pos
