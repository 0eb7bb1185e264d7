-- ===== src/Format.antt =====
-- format.c: the messages that the server sends, and what the functions that print write.
use file_system_server.Base.{ℕ, List, [], ◌∷◌, ◌++◌, codes, newline}

abbrev pub err_bad_request : List ℕ
err_bad_request = codes "Bad request\n"

abbrev pub err_bad_file_size : List ℕ
err_bad_file_size = codes "Bad file size\n"

abbrev pub err_no_such_file : List ℕ
err_no_such_file = codes "No such file\n"

-- To standard output, the text of a call.
unfoldable pub print_client_usage : List ℕ
print_client_usage =
    codes "./client <host>:<port> <method> [remote] [local]\n"
    ++ codes "         <host>\t\tAddress to conenct to.\n"
    ++ codes "         <port>\t\tPort to set up connection on.\n"
    ++ codes "         <method>\tMethod of request to send.\n"
    ++ codes "         [remote]\tOptional argument refering to remote filename\n"
    ++ codes "         [local]\tOptional argument refering to file on local system\n"
    ++ codes
        "         If <method> is any PUT, GET, or DELETE then [remote] and/or [local] are required\n"

unfoldable pub print_client_help : List ℕ
print_client_help =
    print_client_usage
    ++ codes "Methods:\n"
    ++ codes "         LIST\t\t\tRequests a list of files on the server.\n"
    ++ codes "         PUT <remote> <local>\tUploads <local> file to serve as filename <remote>.\n"
    ++ codes
        "         GET <remote> <local>\tDownloads file named <remote> from server as filename <local>.\n"
    ++ codes "         DELETE <remote>\tDeletes file named <remote> on server.\n"

abbrev pub print_connection_closed : List ℕ
print_connection_closed = codes "Connection closed\n"

abbrev pub print_invalid_response : List ℕ
print_invalid_response = codes "Invalid response\n"

abbrev pub print_received_too_much_data : List ℕ
print_received_too_much_data = codes "Received too much data\n"

abbrev pub print_too_little_data : List ℕ
print_too_little_data = codes "Received too little data\n"

abbrev pub print_success : List ℕ
print_success = codes "DELETE/PUT successful\n"

abbrev pub print_error_message : List ℕ → List ℕ
print_error_message err = err ++ newline ∷ []

abbrev pub print_temp_directory : List ℕ → List ℕ
print_temp_directory temp_directory = temp_directory ++ newline ∷ []

-- To standard error.
abbrev pub print_server_usage : List ℕ
print_server_usage = codes "./server <port>\n"
