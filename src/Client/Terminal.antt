-- ===== src/Client/Terminal.antt =====
-- client.c and format.c: the bytes on the client's standard output.
use file_system_server.Base.{ℕ, ◌≡◌, refl, sym, ap, ◌∙◌, List, [], ◌∷◌, ◌++◌, append_assoc}
use file_system_server.Format.{
  print_client_usage, print_client_help, print_connection_closed, print_error_message,
  print_invalid_response, print_too_little_data, print_received_too_much_data, print_success,
}
use file_system_server.Client.State.{
  Output, client_usage, client_help, connection_closed, error_message, invalid_response,
  too_little_data, received_too_much_data, success, local_error, out_of_memory, standard_output,
}

-- `perror` writes to the other stream.
abbrev pub shown : Output → List ℕ
shown client_usage = print_client_usage
shown client_help = print_client_help
shown connection_closed = print_connection_closed
shown (error_message err) = print_error_message err
shown invalid_response = print_invalid_response
shown too_little_data = print_too_little_data
shown received_too_much_data = print_received_too_much_data
shown success = print_success
shown local_error = []
shown out_of_memory = []
shown (standard_output bs) = bs

unfoldable pub terminal : List Output → List ℕ
terminal [] = []
terminal (o ∷ os) = shown o ++ terminal os

pub terminal-append : (os ps : List Output) → terminal (os ++ ps) ≡ terminal os ++ terminal ps
unfolding terminal
terminal-append [] ps = refl
terminal-append (o ∷ os) ps =
    ap (λ z. shown o ++ z) (terminal-append os ps)
    ∙ sym (append_assoc (shown o) (terminal os) (terminal ps))

pub terminal-shows :
    (after os ps : List Output) (text : List ℕ)
    → after ≡ os ++ ps
    → terminal ps ≡ text
    → terminal after ≡ terminal os ++ text
terminal-shows after os ps text e t =
    ap terminal e ∙ terminal-append os ps ∙ ap (λ z. terminal os ++ z) t
