-- ===== src/Client/Dialog.antt =====
-- The dialog of the virus library client, ProcessMangerAlpha/CVirusDefenceDialog.cpp: how it connects
-- to the server, and what its other buttons open. What WinSock answers and the folder that the user
-- picks are arguments; what `connect` returns is not looked at.
use process_manger_alpha.Base.{
  ℕ, suc, ◌==◌, ◌≡◌, ◌⊎◌, refl, Option, none, some, List, [], ◌∷◌, if◌then◌else◌, Option-cases,
  Bool-cases, inl, inr,
}
use process_manger_alpha.Text.{Text, codes}

-- What the dialog asks of the system, in order; a socket is named by its handle.
pub data Call : Type 0 where
  wsa_startup socket wsa_cleanup : Call
  connect : ℕ → Text → ℕ → Call
  message_box : Text → Call

pub record Answers : Type 0 where
  pub startup : ℕ
  -- the socket, unless it is INVALID_SOCKET
  pub handle : Option ℕ

-- OnInitDialog: the calls, and `ConnectSocket` after them. It is a global, which keeps its value
-- when WinSock does not start.
unfoldable pub on_init_dialog : Answers → Option ℕ → List Call × Option ℕ
on_init_dialog a connect_socket =
    if a.startup == 0
    then elim a.handle [
      | none ↦
          (wsa_startup ∷ socket ∷ wsa_cleanup ∷ message_box (codes "创建socket失败，请稍后再试") ∷ [], none)
      | some s ↦ (wsa_startup ∷ socket ∷ connect s (codes "127.0.0.1") 6666 ∷ [], some s)
    ]
    else (wsa_startup ∷ message_box (codes "初始化WinSock库失败，请稍后再试") ∷ [], connect_socket)

-- What a button opens: `strDirPath` is the folder of the scan by path.
pub data Opened : Type 0 where
  all_killing : Opened
  by_path_killing : Text → Opened
  blacklist : Opened

pub data Button : Type 0 where
  button1 button2 button5 : Button

-- OnBnClickedButton1, 2 and 5. A picker that is left without a folder has the empty path.
unfoldable pub on_bn_clicked : Button → Option Text → Opened
on_bn_clicked button1 picked = all_killing
on_bn_clicked button2 none = by_path_killing []
on_bn_clicked button2 (some path) = by_path_killing path
on_bn_clicked button5 picked = blacklist

-- The sockets that are connected to the server.
abbrev pub connected : List Call → List ℕ
connected [] = []
connected (connect s address port ∷ cs) = s ∷ connected cs
connected (wsa_startup ∷ cs) = connected cs
connected (socket ∷ cs) = connected cs
connected (wsa_cleanup ∷ cs) = connected cs
connected (message_box s ∷ cs) = connected cs

abbrev pub shown : List Call → ℕ
shown [] = 0
shown (message_box s ∷ cs) = suc (shown cs)
shown (connect s address port ∷ cs) = shown cs
shown (wsa_startup ∷ cs) = shown cs
shown (socket ∷ cs) = shown cs
shown (wsa_cleanup ∷ cs) = shown cs

-- Whatever WinSock answers, either one socket is connected, the one that is kept, and nothing is
-- shown, or none is connected and one message is shown.
pub on_init_dialog_lem :
    (a : Answers) (before : Option ℕ)
    → let (calls, after) = on_init_dialog a before in
      ((s : ℕ) × (connected calls ≡ s ∷ []) × (after ≡ some s) × (shown calls ≡ 0))
      ⊎ ((connected calls ≡ []) × (shown calls ≡ 1))
unfolding on_init_dialog
on_init_dialog_lem a before = elim (Bool-cases (a.startup == 0)) [
  | inl starts ↦ elim (Option-cases a.handle) [
    | inl e ↦ rw (starts, e) (inr (refl, refl))
    | inr (s, e) ↦ rw (starts, e) (inl (s, refl, refl, refl))
  ]
  | inr fails ↦ rw fails (inr (refl, refl))
]
