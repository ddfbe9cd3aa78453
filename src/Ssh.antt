-- ===== src/Ssh.antt =====
-- The SSH honeypot (src/honeypots/ssh_honeypot.py): the output of a terminal, the shell on a
-- channel, single commands, and uploads. Paramiko's channel is the sequence of bytes that it
-- delivers and the list of what it is sent.
pub mod Terminal
pub mod Shell
pub mod Exec
pub mod Upload
pub mod Prompt
pub mod Login
pub mod Files
pub mod Connection
